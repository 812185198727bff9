-- ===== src/Json/Tests.antt =====
-- Tests of the JSON parser.
use api_key_rotator.Base.{◌>>=◌, ◌∷◌, [], ◌≡◌, refl, none, some, true}
use api_key_rotator.Base.Text.{codes}
use api_key_rotator.Json.Value.{null, bool, num, str, arr, obj, nil, cons, end, field}
use api_key_rotator.Json.Parse.{unmarshal}

unmarshal_nested :
    unmarshal (codes " {\"a\": [1, -2.5e3, null], \"b\":{}, \"c\" : \"x\\u00e9\\n\"} ")
    ≡ some (
        obj (
          field
            (codes "a")
            (arr (cons (num (codes "1")) (cons (num (codes "-2.5e3")) (cons null nil))))
            (field
              (codes "b")
              (obj end)
              (field (codes "c") (str (0x78 ∷ 0xc3 ∷ 0xa9 ∷ 10 ∷ [])) end))))
unfolding unmarshal ◌>>=◌
unmarshal_nested = refl

unmarshal-true : unmarshal (codes "true") ≡ some (bool true)
unfolding unmarshal ◌>>=◌
unmarshal-true = refl

unmarshal_rest : unmarshal (codes "{} x") ≡ none
unfolding unmarshal ◌>>=◌
unmarshal_rest = refl

unmarshal_zero : unmarshal (codes "[01]") ≡ none
unfolding unmarshal ◌>>=◌
unmarshal_zero = refl
