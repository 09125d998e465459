-- ===== src/Malloc/Tree/Rotate.antt =====
-- `rb_rotate` of malloclab/mm.c on the links, and on a tree and what lies above it.
use ics.Common.{ℕ, ◌≡◌, refl, ◌≢◌, arith, ◌==◌, if◌then◌else◌}
use ics.Malloc.Tree.{other, rbnull, Which}
use ics.Malloc.Tree.Links.{put_parent, put_child, put_root, Links}

-- The links that `rb_rotate` leaves.
unfoldable pub rotate_links : Links → ℕ → Which → ℕ → Which → ℕ → Links
rotate_links l n w p pw g =
    let l1 = put_parent l n g in
    let l2 = put_child l1 g pw n in
    let c = l2.child (other w) n in
    let l3 = put_parent l2 c p in
    let l4 = put_child l3 p w c in
    let l5 = put_parent l4 p n in
    let l6 = put_child l5 n (other w) p in put_root l6 (if g == rbnull then n else l6.root)

module _ (l : Links) (n : ℕ) (w : Which) (p : ℕ) (pw : Which) (g : ℕ) (np : n ≢ p) (ng : n ≢ g)
    (pg : p ≢ g) where
  abbrev rotated : Links
  rotated = rotate_links l n w p pw g

  pub rotate-color : (k : ℕ) → rotated.color k ≡ l.color k
  unfolding rotate_links
  rotate-color k = refl

  pub rotate-parent :
      (k : ℕ)
      → rotated.parent k ≡ (
          if k == p
          then n
          else if k == l.child (other w) n
          then p
          else if k == n
          then g
          else l.parent k)
  unfolding rotate_links
  rotate-parent k = ground arith

  pub rotate_inner : rotated.child w n ≡ l.child w n
  unfolding rotate_links
  rotate_inner = ground arith

  pub rotate_down : rotated.child (other w) n ≡ p
  unfolding rotate_links
  rotate_down = ground arith

  pub rotate_across : rotated.child w p ≡ l.child (other w) n
  unfolding rotate_links
  rotate_across = ground arith

  pub rotate_outer : rotated.child (other w) p ≡ l.child (other w) p
  unfolding rotate_links
  rotate_outer = ground arith

  pub rotate_hook : rotated.child pw g ≡ n
  unfolding rotate_links
  rotate_hook = ground arith

  pub rotate_beside : rotated.child (other pw) g ≡ l.child (other pw) g
  unfolding rotate_links
  rotate_beside = ground arith

  pub rotate_elsewhere :
      (k : ℕ) → k ≢ n → k ≢ p → k ≢ g → (w' : Which) → rotated.child w' k ≡ l.child w' k
  unfolding rotate_links
  rotate_elsewhere k kn kp kg w' = ground arith

  pub rotate_root : rotated.root ≡ (if g == rbnull then n else l.root)
  unfolding rotate_links
  rotate_root = refl
