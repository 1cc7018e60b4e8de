-- ===== src/Time.antt =====
-- `datetime` values as the domain normalizes them (normalize_timestamp and its copies).
use workflow_forge.Base.{
  ℕ, ◌≡◌, ◌≤◌, false, raise_if, refl, Bool, Option, none, some, arith, ltb, Error, Result, ok,
  or_raise, ◌>>=◌, leb, is_none,
}

-- `naive` has no tzinfo and `floating` a tzinfo whose `utcoffset()` is None; both show a wall
-- clock. An aware value denotes an instant, in microseconds on one time line, read in a zone.
pub data DateTime : Type 0 where
  naive floating : ℕ → DateTime
  aware : ℕ → ℕ → DateTime

-- The zone `datetime.UTC`.
abbrev pub utc_zone : ℕ
utc_zone = 0

abbrev pub utc : ℕ → DateTime
utc t = aware t utc_zone

abbrev pub instant : DateTime → ℕ
instant (naive t) = t
instant (floating t) = t
instant (aware t _) = t

-- `value.astimezone(UTC)` behind the test on `tzinfo` and `utcoffset()`
abbrev pub to_utc : DateTime → Option DateTime
to_utc (naive _) = none
to_utc (floating _) = none
to_utc (aware t _) = some (utc t)

-- `a < b` and `a <= b` on aware values, which compare by instant
abbrev pub before : DateTime → DateTime → Bool
before a b = ltb (instant a) (instant b)

abbrev pub at_or_before : DateTime → DateTime → Bool
at_or_before a b = leb (instant a) (instant b)

-- The value is in UTC already.
abbrev pub IsUtc : DateTime → Type 0
IsUtc d = to_utc d ≡ some d

abbrev pub IsUtcOption : Option DateTime → Type 0
IsUtcOption none = Unit
IsUtcOption (some d) = IsUtc d

-- The normalization that every module repeats, with the module's own exception.
unfoldable pub normalize : Error → DateTime → Result DateTime
normalize e d = or_raise (to_utc d) e

unfoldable pub normalize_optional : Error → Option DateTime → Result (Option DateTime)
normalize_optional e none = ok none
normalize_optional e (some d) = do d' ← normalize e d; ok (some d')

pub normalize-eq-ok :
    (e : Error) (d : DateTime) {d' : DateTime}
    → normalize e d ≡ ok d'
    → IsUtc d' × (instant d' ≡ instant d)
unfolding normalize
normalize-eq-ok e (aware t z) h = ground arith
normalize-eq-ok e _ h = ground arith

pub normalize-IsUtc : (e : Error) {d : DateTime} → IsUtc d → normalize e d ≡ ok d
unfolding normalize
normalize-IsUtc e h = ground arith

pub normalize_optional-eq-ok :
    (e : Error) (d : Option DateTime) {d' : Option DateTime}
    → normalize_optional e d ≡ ok d'
    → IsUtcOption d'
unfolding normalize_optional normalize
normalize_optional-eq-ok e none h = ground arith
normalize_optional-eq-ok e (some (aware t z)) h = ground arith
normalize_optional-eq-ok e (some _) h = ground arith

pub normalize_optional-IsUtcOption :
    (e : Error) (d : Option DateTime) → IsUtcOption d → normalize_optional e d ≡ ok d
unfolding normalize_optional
normalize_optional-IsUtcOption e none h = refl
normalize_optional-IsUtcOption e (some d) h = rw (normalize-IsUtc e h)

pub raise_if-before :
    (a b : DateTime) (e : Error) {u : Unit {0}}
    → raise_if (before b a) e ≡ ok u
    → instant a ≤ instant b
raise_if-before a b e h = ground arith

pub not_before : (a b : DateTime) → instant a ≤ instant b → before b a ≡ false
not_before a b h = ground arith

pub is_none-normalize_optional :
    (e : Error) (d d' : Option DateTime) → normalize_optional e d ≡ ok d' → is_none d' ≡ is_none d
unfolding normalize_optional normalize
is_none-normalize_optional e none d' h = ground arith
is_none-normalize_optional e (some (aware t z)) d' h = ground arith
is_none-normalize_optional e (some _) d' h = ground arith

pub IsUtc-eq : (d : DateTime) → IsUtc d → d ≡ utc (instant d)
IsUtc-eq (aware t z) h = ground arith
IsUtc-eq _ h = ground arith
