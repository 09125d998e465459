-- ===== src/Malloc/Tree/RedBlack.antt =====
-- The colors, the heights and the order of a tree, with the tree of malloclab/mm.c in mind: what
-- a change at one place means for the whole.
use mathlib.Core.Path.{subst}
use ics.Common.{ℕ, ◌+◌, ◌<◌, ◌≡◌, refl, List, [], ◌∷◌, ◌++◌, append_assoc, arith}
use ics.Malloc.Tree.{rb_red, rb_black, Which, rb_left, rb_right}
use ics.Malloc.Tree.Focus.{
  side, occurs, occurs_above, occurs-side, RbTree, Above, empty, tree, whole, below,
}
use ics.Malloc.Tree.FixRotate.{turned}

-- The tree with all that is above it.
abbrev pub refill : Above → RbTree → RbTree
refill whole t = t
refill (below w c k s up) t = refill up (side w c k t s)

abbrev pub inorder : RbTree → List ℕ
inorder empty = []
inorder (tree c n a b) = inorder a ++ (n ∷ inorder b)

-- An empty tree counts as black.
abbrev pub color_of : RbTree → ℕ
color_of empty = rb_black
color_of (tree c n a b) = c

-- No red node has a red child.
abbrev pub Sound : RbTree → Type 0
Sound empty = Unit
Sound (tree c n a b) =
    (c < 2) × (c ≡ rb_red → (color_of a ≡ rb_black) × (color_of b ≡ rb_black)) × Sound a × Sound b

-- Every way down meets `h` black nodes.
abbrev pub Balanced : ℕ → RbTree → Type 0
Balanced h empty = h ≡ 0
Balanced h (tree c n a b) = (h' : ℕ) × (h ≡ h' + c) × Balanced h' a × Balanced h' b

-- What is above is right for a tree with a top of this color, and is black at the root.
abbrev pub SoundAbove : ℕ → Above → Type 0
SoundAbove top whole = top ≡ rb_black
SoundAbove top (below w c k s up) =
    (c < 2) × (c ≡ rb_red → (top ≡ rb_black) × (color_of s ≡ rb_black)) × Sound s × SoundAbove c up

abbrev pub BalancedAbove : ℕ → Above → Type 0
BalancedAbove h whole = Unit
BalancedAbove h (below w c k s up) = Balanced h s × BalancedAbove (h + c) up

-- The tree has the rules of a red-black tree, and a black root.
pub record IsRedBlack (t : RbTree) : Type 0 where
  pub sound : Sound t
  pub black_root : color_of t ≡ rb_black
  pub height : ℕ
  pub balanced : Balanced height t

pub side-Sound :
    (w : Which) (c n : ℕ) (x y : RbTree)
    → c < 2
    → (c ≡ rb_red → (color_of x ≡ rb_black) × (color_of y ≡ rb_black))
    → Sound x
    → Sound y
    → Sound (side w c n x y) × (color_of (side w c n x y) ≡ c)
side-Sound rb_left c n x y lt f a b = ((lt, f, a, b), refl)
side-Sound rb_right c n x y lt f a b = ((lt, (λ e. let (p, q) = f e in (q, p)), b, a), refl)

pub side-Balanced :
    (w : Which) (h c n : ℕ) (x y : RbTree)
    → Balanced h x
    → Balanced h y
    → Balanced (h + c) (side w c n x y)
side-Balanced rb_left h c n x y a b = (h, refl, a, b)
side-Balanced rb_right h c n x y a b = (h, refl, b, a)

refill-Sound :
    (up : Above) (t : RbTree)
    → Sound t
    → SoundAbove (color_of t) up
    → Sound (refill up t) × (color_of (refill up t) ≡ rb_black)
refill-Sound whole t s a = (s, a)
refill-Sound (below w c k r up) t s (lt, f, sr, a) =
    let (x, e) = side-Sound w c k t r lt f s sr in refill-Sound up (side w c k t r) x (rw e a)

refill-Balanced :
    (up : Above) (h : ℕ) (t : RbTree)
    → Balanced h t
    → BalancedAbove h up
    → (h' : ℕ) × Balanced h' (refill up t)
refill-Balanced whole h t b a = (h, b)
refill-Balanced (below w c k r up) h t b (br, a) =
    refill-Balanced up (h + c) (side w c k t r) (side-Balanced w h c k t r b br) a

pub refill-IsRedBlack :
    (up : Above) (h : ℕ) (t : RbTree)
    → Sound t
    → Balanced h t
    → SoundAbove (color_of t) up
    → BalancedAbove h up
    → IsRedBlack (refill up t)
refill-IsRedBlack up h t s b sa ba =
    let (x, e) = refill-Sound up t s sa in
    let (h', y) = refill-Balanced up h t b ba in
    record { sound = x; black_root = e; height = h'; balanced = y }

inorder-side :
    (w : Which) (c c' n : ℕ) (x x' y : RbTree)
    → inorder x ≡ inorder x'
    → inorder (side w c n x y) ≡ inorder (side w c' n x' y)
inorder-side rb_left c c' n x x' y e = rw e refl
inorder-side rb_right c c' n x x' y e = rw e refl

pub refill-inorder :
    (up : Above) (t t' : RbTree)
    → inorder t ≡ inorder t'
    → inorder (refill up t) ≡ inorder (refill up t')
refill-inorder whole t t' e = e
refill-inorder (below w c k s up) t t' e =
    refill-inorder up (side w c k t s) (side w c k t' s) (inorder-side w c c k t t' s e)

pub refill-occurs :
    (up : Above) (t : RbTree) (k : ℕ) → occurs k (refill up t) ≡ occurs k t + occurs_above k up
refill-occurs whole t k = omega arith
refill-occurs (below w c j s up) t k =
    let e = refill-occurs up (side w c j t s) k in
    let e' = occurs-side w k c j t s in omega (arith, e, e')

pub turned-inorder :
    (w w1 : Which) (ct n : ℕ) (a b : RbTree) (c k : ℕ) (s : RbTree) (c1 g : ℕ) (s1 : RbTree)
    → inorder (turned w w1 ct n a b c k s g s1)
      ≡ inorder (side w1 c1 g (side w c k (tree ct n a b) s) s1)
turned-inorder rb_left rb_left ct n a b c k s c1 g s1 = simp append_assoc
turned-inorder rb_right rb_right ct n a b c k s c1 g s1 = simp append_assoc
turned-inorder rb_left rb_right ct n a b c k s c1 g s1 = simp append_assoc
turned-inorder rb_right rb_left ct n a b c k s c1 g s1 = simp append_assoc

red_node :
    (n : ℕ) (x y : RbTree)
    → color_of x ≡ rb_black
    → color_of y ≡ rb_black
    → Sound x
    → Sound y
    → Sound (tree rb_red n x y)
red_node n x y p q a b = (omega arith, (λ e. (p, q)), a, b)

pub black_node : (n : ℕ) (x y : RbTree) → Sound x → Sound y → Sound (tree rb_black n x y)
black_node n x y a b = (omega arith, (λ e. absurd (omega arith)), a, b)

-- A rotated grandparent was black, and its children are not red below red.
pub turned-Sound :
    (w w1 : Which) (n : ℕ) (a b : RbTree) (k : ℕ) (s : RbTree) (g : ℕ) (s1 : RbTree)
    → Sound (tree rb_red n a b)
    → Sound s
    → color_of s ≡ rb_black
    → Sound s1
    → color_of s1 ≡ rb_black
    → Sound (turned w w1 rb_red n a b rb_red k s g s1)
      × (color_of (turned w w1 rb_red n a b rb_red k s g s1) ≡ rb_black)
turned-Sound rb_left rb_left n a b k s g s1 (lt, f, x, y) ss cs t ct = (
  black_node k (tree rb_red n a b) (tree rb_red g s s1) (lt, f, x, y) (red_node g s s1 cs ct ss t),
  refl,
)
turned-Sound rb_right rb_right n a b k s g s1 (lt, f, x, y) ss cs t ct = (
  black_node k (tree rb_red g s1 s) (tree rb_red n a b) (red_node g s1 s ct cs t ss) (lt, f, x, y),
  refl,
)
turned-Sound rb_left rb_right n a b k s g s1 (lt, f, x, y) ss cs t ct =
    let (p, q) = f refl in
    (
      black_node n (tree rb_red g s1 a) (tree rb_red k b s) (red_node g s1 a ct p t x)
          (red_node k b s q cs y ss),
      refl,
    )
turned-Sound rb_right rb_left n a b k s g s1 (lt, f, x, y) ss cs t ct =
    let (p, q) = f refl in
    (
      black_node n (tree rb_red k s a) (tree rb_red g b s1) (red_node k s a cs p ss x)
          (red_node g b s1 q ct y t),
      refl,
    )

pub turned-Balanced :
    (w w1 : Which) (h n : ℕ) (a b : RbTree) (k : ℕ) (s : RbTree) (g : ℕ) (s1 : RbTree)
    → Balanced h (tree rb_red n a b)
    → Balanced h s
    → Balanced h s1
    → Balanced (h + 1) (turned w w1 rb_red n a b rb_red k s g s1)
turned-Balanced rb_left rb_left h n a b k s g s1 t x y = (h, refl, t, (h, omega arith, x, y))
turned-Balanced rb_right rb_right h n a b k s g s1 t x y = (h, refl, (h, omega arith, y, x), t)
turned-Balanced rb_left rb_right h n a b k s g s1 (h', e, p, q) x y =
    let same : (t : RbTree) → Balanced h' t → Balanced h t =
      λ t. subst (λ i. Balanced i t) (omega arith) in
    (h, refl, (h, omega arith, y, same a p), (h, omega arith, same b q, x))
turned-Balanced rb_right rb_left h n a b k s g s1 (h', e, p, q) x y =
    let same : (t : RbTree) → Balanced h' t → Balanced h t =
      λ t. subst (λ i. Balanced i t) (omega arith) in
    (h, refl, (h, omega arith, x, same a p), (h, omega arith, same b q, y))

pub Sound-side :
    (w : Which) (c n : ℕ) (x y : RbTree)
    → Sound (side w c n x y)
    → (c < 2) × (c ≡ rb_red → (color_of x ≡ rb_black) × (color_of y ≡ rb_black)) × Sound x × Sound y
Sound-side rb_left c n x y s = s
Sound-side rb_right c n x y (lt, f, a, b) = (lt, (λ e. let (p, q) = f e in (q, p)), b, a)

pub Sound-refill :
    (up : Above) (t : RbTree)
    → Sound (refill up t)
    → color_of (refill up t) ≡ rb_black
    → Sound t × SoundAbove (color_of t) up
Sound-refill whole t s e = (s, e)
Sound-refill (below w c k r up) t s e =
    let (x, a) = Sound-refill up (side w c k t r) s e in
    let (lt, f, p, q) = Sound-side w c k t r x in (p, (lt, f, q, a))

pub Balanced-side :
    (w : Which) (h c n : ℕ) (x y : RbTree)
    → Balanced h (side w c n x y)
    → (h' : ℕ) × (h ≡ h' + c) × Balanced h' x × Balanced h' y
Balanced-side rb_left h c n x y b = b
Balanced-side rb_right h c n x y (h', e, a, b) = (h', e, b, a)

pub Balanced-refill :
    (up : Above) (h : ℕ) (t : RbTree)
    → Balanced h (refill up t)
    → (h' : ℕ) × Balanced h' t × BalancedAbove h' up
Balanced-refill whole h t b = (h, b, tt)
Balanced-refill (below w c k r up) h t b =
    let (i, x, a) = Balanced-refill up h (side w c k t r) b in
    let (h', e, p, q) = Balanced-side w i c k t r x in
    (h', p, (q, subst (λ j. BalancedAbove j up) e a))
