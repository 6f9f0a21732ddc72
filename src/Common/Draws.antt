-- ===== src/Common/Draws.antt =====
-- Items that each have an element of their own in a list.
use mathlib.Core.Path.{refl, subst}
use mathlib.Core.List.{List, [], ◌∷◌, ◌++◌, map, Memᴰ, Permᴰ}
use mathlib.Core.List.Permᴰ
use bundle_broadcaster.Common.Lists.{All, All-imp}
use bundle_broadcaster.Common.Perms.{mem_of_perm}

module _ {ℓ κ μ} {A : Type ℓ} {B : Type κ} (R : A → B → Type μ) where
  -- Each item stands in the relation to an element of the list, different items to elements in different
  -- places.
  pub data Drawn : List A → List B → Type (ℓ ⊔ κ ⊔ μ) where
    drawn_none : {es : List B} → Drawn [] es
    draws :
        {x : A} {xs : List A} (e : B) {rest es : List B}
        → R x e
        → Permᴰ es (e ∷ rest)
        → Drawn xs rest
        → Drawn (x ∷ xs) es

  -- What may become of the items: each changes to one that stands in relation to whatever it did, or is
  -- dropped, in any order.
  pub data Comes : List A → List A → Type (ℓ ⊔ κ ⊔ μ) where
    changes :
        {x y : A} {xs ys : List A}
        → ((e : B) → R x e → R y e)
        → Comes xs ys
        → Comes (x ∷ xs) (y ∷ ys)
    drops : {x : A} {xs ys : List A} → Comes xs ys → Comes (x ∷ xs) ys
    moves : {xs ys : List A} → Permᴰ xs ys → Comes xs ys
    in_turn : {xs ys zs : List A} → Comes xs ys → Comes ys zs → Comes xs zs

  Drawn-of_perm : {xs : List A} {es es' : List B} → Permᴰ es' es → Drawn xs es → Drawn xs es'
  Drawn-of_perm p drawn_none = drawn_none
  Drawn-of_perm p (draws e r q d) = draws e r (Permᴰ.trans p q) d

  Drawn-from_more : {xs : List A} (e : B) {es : List B} → Drawn xs es → Drawn xs (e ∷ es)
  Drawn-from_more e drawn_none = drawn_none
  Drawn-from_more e (draws f r p d) =
      draws f r (Permᴰ.trans (Permᴰ.cons refl p) (Permᴰ.swap refl refl)) (Drawn-from_more e d)

  Drawn-tail : {x : A} {xs : List A} {es : List B} → Drawn (x ∷ xs) es → Drawn xs es
  Drawn-tail (draws e r p d) = Drawn-of_perm p (Drawn-from_more e d)

  Drawn-Perm : {xs ys : List A} {es : List B} → Permᴰ xs ys → Drawn xs es → Drawn ys es
  Drawn-Perm Permᴰ.nil d = d
  Drawn-Perm (Permᴰ.cons same q) (draws e r p d) =
      draws e (subst (λ x. R x e) same r) p (Drawn-Perm q d)
  Drawn-Perm (Permᴰ.swap same same') (draws e r p (draws f s q d)) =
      draws f (subst (λ x. R x f) same' s)
        (Permᴰ.trans p (Permᴰ.trans (Permᴰ.cons refl q) (Permᴰ.swap refl refl)))
        (draws e (subst (λ x. R x e) same r) (Permᴰ.refl _) d)
  Drawn-Perm (Permᴰ.trans q q') d = Drawn-Perm q' (Drawn-Perm q d)

  pub Drawn-Comes : {xs ys : List A} {es : List B} → Comes xs ys → Drawn xs es → Drawn ys es
  Drawn-Comes (changes f c) (draws e r p d) = draws e (f e r) p (Drawn-Comes c d)
  Drawn-Comes (drops c) d = Drawn-Comes c (Drawn-tail d)
  Drawn-Comes (moves q) d = Drawn-Perm q d
  Drawn-Comes (in_turn c c') d = Drawn-Comes c' (Drawn-Comes c d)

  -- A new item, for an element that the list gets.
  pub draws_last :
      {x : A} {xs : List A} (e : B) {es : List B}
      → R x e
      → Drawn xs es
      → Drawn (x ∷ xs) (es ++ (e ∷ []))
  draws_last e {es} r d = draws e r (Permᴰ.append_comm es (e ∷ [])) d

  pub unchanged : (xs : List A) → Comes xs xs
  unchanged xs = moves (Permᴰ.refl xs)

  pub Comes-append_left : (zs : List A) {xs ys : List A} → Comes xs ys → Comes (zs ++ xs) (zs ++ ys)
  Comes-append_left [] c = c
  Comes-append_left (z ∷ zs) c = changes (λ e r. r) (Comes-append_left zs c)

  pub Comes-append_right :
      (zs : List A) {xs ys : List A} → Comes xs ys → Comes (xs ++ zs) (ys ++ zs)
  Comes-append_right zs (changes f c) = changes f (Comes-append_right zs c)
  Comes-append_right zs (drops c) = drops (Comes-append_right zs c)
  Comes-append_right zs (moves q) = moves (Permᴰ.append_right zs q)
  Comes-append_right zs (in_turn c c') =
      in_turn (Comes-append_right zs c) (Comes-append_right zs c')

  -- The element that an item has.
  abbrev pub Owner : List B → A → Type (κ ⊔ μ)
  Owner es x = (e : B) × Memᴰ e es × R x e

  Owner-of_perm :
      {rest es : List B} (e : B) (x : A) → Permᴰ es (e ∷ rest) → Owner rest x → Owner es x
  Owner-of_perm e x p (f, m, r) = (f, mem_of_perm (Permᴰ.symm p) (Memᴰ.tail m), r)

  pub Drawn-All : {xs : List A} {es : List B} → Drawn xs es → All (Owner es) xs
  Drawn-All drawn_none = tt
  Drawn-All (draws {xs} e {rest} {es} r p d) = (
    (e, mem_of_perm (Permᴰ.symm p) (Memᴰ.head refl), r),
    All-imp (Owner rest) (Owner es) xs (λ x. Owner-of_perm e x p) (Drawn-All d),
  )

module _ {ℓ κ} {A : Type ℓ} {B : Type κ} where
  pub All-of_map {μ} :
      (P : B → Type μ) (f : A → B) (xs : List A) → All P (map f xs) → All (λ x. P (f x)) xs
  All-of_map P f [] h = tt
  All-of_map P f (x ∷ xs) h = (h.0, All-of_map P f xs h.1)
