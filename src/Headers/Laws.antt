-- ===== src/Headers/Laws.antt =====
-- Setting and deleting the names of a header.
use api_key_rotator.Base.{◌≡◌, refl, true, false, [], ◌∷◌, arith}
use api_key_rotator.Base.Text.{Bytes, bytes_eq, bytes_eq_refl, bytes_eq_sound}
use api_key_rotator.Headers.{Header, header_values, header_del, header_set}

pub header_values-del : (name : Bytes) (h : Header) → header_values name (header_del name h) ≡ []
unfolding header_values header_del
header_values-del name [] = refl
header_values-del name ((k, vs) ∷ h) = ground (arith, header_values-del name h)

bytes_eq_trans : (k a b : Bytes) → bytes_eq k a ≡ true → bytes_eq a b ≡ false → bytes_eq k b ≡ false
bytes_eq_trans k a b e f = let same : k ≡ a = bytes_eq_sound k a e in ground arith

pub header_values-del_ne :
    (name other : Bytes) (h : Header)
    → bytes_eq other name ≡ false
    → header_values name (header_del other h) ≡ header_values name h
unfolding header_values header_del
header_values-del_ne name other [] n = refl
header_values-del_ne name other ((k, vs) ∷ h) n =
    ground (arith, header_values-del_ne name other h n, bytes_eq_trans k other name)

pub header_values-set :
    (name value : Bytes) (h : Header) → header_values name (header_set name value h) ≡ value ∷ []
unfolding header_values header_set
header_values-set name value h = ground (arith, bytes_eq_refl name, header_values-del name h)

pub header_values-set_ne :
    (name other value : Bytes) (h : Header)
    → bytes_eq other name ≡ false
    → header_values name (header_set other value h) ≡ header_values name h
unfolding header_values header_set
header_values-set_ne name other value h n = ground (arith, header_values-del_ne name other h n)
