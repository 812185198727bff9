-- ===== src/Pool/Advance.antt =====
-- keys.go: Advance, AdvanceAfter and retryAfterSeconds.
pub mod Rotation
use api_key_rotator.Base.{
  ℕ, ◌+◌, ◌*◌, List, [], ◌∷◌, Option, none, some, ltb, if◌then◌else◌, modify,
}
use api_key_rotator.Base.Text.{Bytes, codes, bytes_eq, trim_space, atoi}
use api_key_rotator.Base.Int.{ℤ, pos, negsuc}
use api_key_rotator.Headers.{Header, header_get}
use api_key_rotator.Pool.State.{KeyPool, Slot}
use api_key_rotator.Pool.Select.{current}

abbrev pub second : ℕ
second = 1_000_000_000

abbrev pub rotate_cooldown : ℕ
rotate_cooldown = 30 * second

abbrev pub retry_after : Bytes
retry_after = codes "Retry-After"

-- The value that strconv.Atoi gave, with `err != nil || n <= 0` and the cap of one hour.
abbrev pub bounded_seconds : Option ℤ → ℕ
bounded_seconds none = 0
bounded_seconds (some (negsuc n)) = 0
bounded_seconds (some (pos n)) = if ltb 3600 n then 3600 else n

unfoldable pub retry_after_seconds : Header → ℕ
retry_after_seconds h = bounded_seconds (atoi (trim_space (header_get retry_after h)))

-- The cooldown of AdvanceAfter: Retry-After when that is longer than rotateCooldown.
unfoldable pub cooldown_after : Header → ℕ
cooldown_after h =
    let want = retry_after_seconds h * second in
    if ltb rotate_cooldown want then want else rotate_cooldown

abbrev pub cool_until : ℕ → Slot → Slot
cool_until t s = record s { cooldown_until = some t }

unfoldable pub advance : ℕ → KeyPool → KeyPool × Option (ℕ × Bytes)
advance now p =
    current now (record p { slots = modify p.slots p.cursor (cool_until (now + rotate_cooldown)) })

unfoldable pub advance_after : Header → ℕ → KeyPool → KeyPool × Option (ℕ × Bytes)
advance_after h now p =
    current now (record p { slots = modify p.slots p.cursor (cool_until (now + cooldown_after h)) })
