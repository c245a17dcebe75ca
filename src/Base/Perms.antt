-- ===== src/Base/Perms.antt =====
-- Rearrangements of lists, beside those of the library.
use mathlib.Core.Path.{◌≡◌, sym, subst}
use mathlib.Core.List.{List, ◌++◌, append_assoc, Permᴰ}
use mathlib.Core.List.Permᴰ

module _ {ℓ} {A : Type ℓ} where
  pub perm_of_eq : {xs ys : List A} → xs ≡ ys → Permᴰ xs ys
  perm_of_eq {xs} e = subst (Permᴰ xs) e (Permᴰ.refl xs)

  -- A part moves behind what follows it.
  pub perm_move_last : (a b c : List A) → Permᴰ ((a ++ b) ++ c) ((a ++ c) ++ b)
  perm_move_last a b c = Permᴰ.trans (perm_of_eq (append_assoc a b c)) (
      Permᴰ.trans (Permᴰ.append_left a (Permᴰ.append_comm b c))
        (perm_of_eq (sym (append_assoc a c b))))
