-- ===== src/Reception/Language.antt =====
-- services/reception/language.py: the language of a turn.
--
-- The regular expressions, and the splitting of a text into words, are taken as tests and counts of
-- a text.
use fab_ai_smart_hotel_manag.Prelude.{
  ℕ, ◌+◌, ◌*◌, Bool, true, false, not, ◌&&◌, ◌||◌, Option, none, some, [], ◌∷◌, ltb, leb, ◌==◌,
  if◌then◌else◌, map,
}
use fab_ai_smart_hotel_manag.Rooms.Weekdays.{Text}
use fab_ai_smart_hotel_manag.Billing.Folio.{same_text, is_empty}

-- "bn" and "en"
abbrev pub bn : Text
bn = 98 ∷ 110 ∷ []

abbrev pub en : Text
en = 101 ∷ 110 ∷ []

pub record Patterns : Type 0 where
  pub strip : Text → Text
  pub wants_bangla : Text → Bool
  pub wants_english : Text → Bool
  pub request_shape : Text → Bool
  pub word_count : Text → ℕ
  pub bangla_letters : Text → ℕ
  pub latin_letters : Text → ℕ

abbrev pub same_answer : Bool → Bool → Bool
same_answer true b = b
same_answer false b = not b

module _ (p : Patterns) where
  -- `choose(text)`, on the text without the white space around it
  abbrev pub choose_in : Text → Option Text
  choose_in body =
      if is_empty body || same_answer (p.wants_bangla body) (p.wants_english body)
      then none
      else if ltb 3 (p.word_count body) && not (p.request_shape body)
      then none
      else some (if p.wants_bangla body then bn else en)

  unfoldable pub choose : Text → Option Text
  choose text = choose_in (p.strip text)

  -- The counting of `detect`: a majority is three fifths.
  abbrev pub by_letters : ℕ → ℕ → Text → Text
  by_letters bangla latin fallback =
      if ltb (bangla + latin) 5
      then fallback
      else if leb (3 * (bangla + latin)) (5 * bangla)
      then bn
      else if leb (3 * (bangla + latin)) (5 * latin)
      then en
      else fallback

  abbrev pub or_counted : Option Text → Text → Text → Text
  or_counted (some named) text fallback = named
  or_counted none text fallback = by_letters (p.bangla_letters text) (p.latin_letters text) fallback

  -- `detect(text, fallback)`
  unfoldable pub detect : Text → Text → Text
  detect text fallback = or_counted (choose text) text fallback

-- `code.split("-")[0]`
abbrev pub before_dash : Text → Text
before_dash [] = []
before_dash (c ∷ cs) = let rest = before_dash cs in if c == 45 then [] else c ∷ rest

-- The lower case of the letters A to Z; no other character has one of "b", "e" and "n" for its own.
abbrev pub lower_letter : ℕ → ℕ
lower_letter c = if leb 65 c && leb c 90 then c + 32 else c

abbrev pub is_ours : Text → Bool
is_ours base = same_text base bn || same_text base en

-- `normalise(code, fallback)`
unfoldable pub normalise : Text → Text → Text
normalise code fallback =
    let base = map lower_letter (before_dash code) in if is_ours base then base else fallback

-- `is_supported(code)`
abbrev pub is_supported : Text → Bool
is_supported code = is_ours (before_dash code)
