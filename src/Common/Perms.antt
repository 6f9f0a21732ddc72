-- ===== src/Common/Perms.antt =====
-- What a permutation of a list keeps.
use mathlib.Core.Path.{◌≡◌, refl, sym, subst, ◌∙◌}
use mathlib.Core.List.{List, [], ◌∷◌, ◌++◌, append_assoc, Memᴰ, Permᴰ}
use mathlib.Core.List.Memᴰ
use mathlib.Core.List.Permᴰ

module _ {ℓ} {A : Type ℓ} where
  pub mem_of_perm : {a : A} {xs ys : List A} → Permᴰ xs ys → Memᴰ a xs → Memᴰ a ys
  mem_of_perm (Permᴰ.cons e d) (Memᴰ.head same) = Memᴰ.head (same ∙ e)
  mem_of_perm (Permᴰ.cons e d) (Memᴰ.tail m) = Memᴰ.tail (mem_of_perm d m)
  mem_of_perm (Permᴰ.swap e e') (Memᴰ.head same) = Memᴰ.tail (Memᴰ.head (same ∙ e))
  mem_of_perm (Permᴰ.swap e e') (Memᴰ.tail (Memᴰ.head same)) = Memᴰ.head (same ∙ e')
  mem_of_perm (Permᴰ.swap e e') (Memᴰ.tail (Memᴰ.tail m)) = Memᴰ.tail (Memᴰ.tail m)
  mem_of_perm (Permᴰ.trans d d') m = mem_of_perm d' (mem_of_perm d m)
  mem_of_perm Permᴰ.nil m = absurd (Memᴰ.not-nil m)

  pub perm_of_eq : {xs ys : List A} → xs ≡ ys → Permᴰ xs ys
  perm_of_eq {xs} e = subst (Permᴰ xs) e (Permᴰ.refl xs)

  pub four_parts :
      (ws bs cs ds : List A) → Permᴰ ((ws ++ bs) ++ (cs ++ ds)) ((ws ++ cs) ++ (bs ++ ds))
  four_parts [] bs cs ds = Permᴰ.trans (perm_of_eq (sym (append_assoc bs cs ds))) (
      Permᴰ.trans (Permᴰ.append_right ds (Permᴰ.append_comm bs cs))
        (perm_of_eq (append_assoc cs bs ds)))
  four_parts (w ∷ ws) bs cs ds = Permᴰ.cons refl (four_parts ws bs cs ds)
