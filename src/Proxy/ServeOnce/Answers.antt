-- ===== src/Proxy/ServeOnce/Answers.antt =====
-- proxy.go: what the result of serveOnce means.
use api_key_rotator.Base.{
  ℕ, ◌≡◌, ◌⊎◌, inl, inr, sym, ◌∙◌, false≢true, Bool, true, false, Option, none, some, arith,
  Bool-cases,
}
use api_key_rotator.Base.Text.{Bytes}
use api_key_rotator.Profile.State.{Profile}
use api_key_rotator.Profile.Policy.{should_rotate}
use api_key_rotator.Rotate.{should_retry}
use api_key_rotator.Proxy.Request.{Request}
use api_key_rotator.Proxy.TryKey.{Tried, try_key}
use api_key_rotator.Proxy.TryKey.Laws.{try_key_settled}
use api_key_rotator.Proxy.ServeOnce.{
  World, Run, RotResult, RotResultKind, res_ok, res_rotate, serve_once, with_slot, try_slot,
  try_selected, kind_of, select, acquire, ensure_measured,
}

abbrev pub rotates : RotResultKind → Bool
rotates res_rotate = true
rotates _ = false

-- The kinds that stand for an answer of upstream which was read whole.
abbrev pub is_answer : RotResultKind → Bool
is_answer res_ok = true
is_answer res_rotate = true
is_answer _ = false

module _ (max_body : ℕ) (p : Profile) where
  Classified : RotResult → Type 0
  Classified res =
      is_answer res.kind ≡ true
      → (should_retry res.status false ≡ false)
        × (should_rotate p res.status res.body ≡ rotates res.kind)

  kind_of_cases :
      (t : Tried)
      → (is_answer (kind_of p t) ≡ false)
        ⊎ ((t.capped ≡ false)
            × (t.net_err ≡ false)
            × (should_rotate p t.status t.body ≡ rotates (kind_of p t)))
  unfolding kind_of
  kind_of_cases t = ground (
    arith,
    Bool-cases t.capped,
    Bool-cases t.net_err,
    Bool-cases (should_rotate p t.status t.body),
  )

  module _ (w : World) (req : Request) (stripped : Bytes) where
    with_slot-Classified :
        (i : ℕ) (key : Bytes) (r : Run) → Classified (with_slot w max_body p req stripped i key r).0
    unfolding Classified with_slot
    with_slot-Classified i key r a =
        let o = w.upstream (ensure_measured w p i key r).tick in
        let t = (try_key o max_body p key req stripped).0 in
        elim (kind_of_cases t) [
          | inl other ↦ absurd (false≢true (sym other ∙ a))
          | inr (whole, done, rotated) ↦
              (try_key_settled o max_body p key req stripped done whole, rotated)
        ]

    try_slot-Classified :
        (i : ℕ) (key : Bytes) (r : Run) (b : Bool)
        → Classified (try_slot w max_body p req stripped i key (r, b)).0
    unfolding Classified
    try_slot-Classified i key r true = with_slot-Classified i key r
    try_slot-Classified i key r false = λ a. absurd (false≢true a)

    try_selected-Classified :
        (r : Run) (sel : Option (ℕ × Bytes))
        → Classified (try_selected w max_body p req stripped (r, sel)).0
    unfolding Classified
    try_selected-Classified r none = λ a. absurd (false≢true a)
    try_selected-Classified r (some (i, key)) =
        try_slot-Classified i key (acquire w i r).0 (acquire w i r).1

    -- A result of serve_once that is served as a success or rotated on has no transient status,
    -- such as 403 or 502, and it is rotated on exactly when shouldRotate holds of its status and
    -- body.
    pub serve_once_classified :
        (r : Run)
        → is_answer (serve_once w max_body p req stripped r).0.kind ≡ true
        → (should_retry (serve_once w max_body p req stripped r).0.status false ≡ false)
          × (should_rotate p
                (serve_once w max_body p req stripped r).0.status
                (serve_once w max_body p req stripped r).0.body
              ≡ rotates (serve_once w max_body p req stripped r).0.kind)
    unfolding serve_once Classified
    serve_once_classified r = try_selected-Classified (select w r).0 (select w r).1
