-- ===== src/Text/Laws.antt =====
-- Laws of the text operations.
use crypto_gateway_rp.Common.{true, ◌≡◌, refl, [], ◌∷◌, arith}
use crypto_gateway_rp.Text.{Text, eq_text}

pub eq_text→≡ : (s t : Text) → eq_text s t ≡ true → s ≡ t
eq_text→≡ [] [] h = refl
eq_text→≡ [] (y ∷ ys) h = ground arith
eq_text→≡ (x ∷ xs) [] h = ground arith
eq_text→≡ (x ∷ xs) (y ∷ ys) h = ground (arith, eq_text→≡ xs ys)

pub eq_text_refl : (s : Text) → eq_text s s ≡ true
eq_text_refl [] = refl
eq_text_refl (x ∷ xs) = ground (arith, eq_text_refl xs)
