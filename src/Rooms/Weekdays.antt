-- ===== src/Rooms/Weekdays.antt =====
-- apps/rooms/models.py, the text of `RoomRate.weekdays` as `RoomRate.applies_on` reads it.
-- A text is the list of its code points. `str.isdigit` and `str.strip` are read on ASCII text.
use fab_ai_smart_hotel_manag.Prelude.{
  ℕ, ◌+◌, ◌-◌, ◌*◌, Bool, true, false, ◌&&◌, ◌||◌, List, [], ◌∷◌, ◌++◌, leb, ◌==◌, if◌then◌else◌,
}

abbrev pub Text : Type 0
Text = List ℕ

abbrev pub is_space : ℕ → Bool
is_space c = c == 32 || (leb 9 c && leb c 13) || (leb 28 c && leb c 31)

abbrev pub is_digit : ℕ → Bool
is_digit c = leb b'0' c && leb c b'9'

-- `text.split(",")`, with the part that is being read
split_from : Text → Text → List Text
split_from part [] = part ∷ []
split_from part (c ∷ cs) =
    if c == b',' then part ∷ split_from [] cs else split_from (part ++ c ∷ []) cs

abbrev lstrip : Text → Text
lstrip [] = []
lstrip (c ∷ cs) = if is_space c then lstrip cs else c ∷ cs

abbrev rstrip : Text → Text
rstrip [] = []
rstrip (c ∷ cs) = elim (rstrip cs) [ [] ↦ if is_space c then [] else c ∷ [] | d ∷ ds ↦ c ∷ d ∷ ds ]

-- `str.strip`
abbrev pub strip : Text → Text
strip t = lstrip (rstrip t)

abbrev all_digits : Text → Bool
all_digits [] = true
all_digits (c ∷ cs) = is_digit c && all_digits cs

-- `part.isdigit()` of a stripped part; the empty text is no number
abbrev isdigit : Text → Bool
isdigit [] = false
isdigit (c ∷ cs) = all_digits (c ∷ cs)

abbrev pub int_from : ℕ → Text → ℕ
int_from n [] = n
int_from n (c ∷ cs) = int_from (n * 10 + (c - b'0')) cs

abbrev collect : List Text → List ℕ
collect [] = []
collect (part ∷ parts) =
    let t = strip part in
    let rest = collect parts in if isdigit t then int_from 0 t ∷ rest else rest

-- `{int(part) for part in weekdays.split(",") if part.strip().isdigit()}`
unfoldable pub allowed_days : Text → List ℕ
unfolding split_from
allowed_days text = collect (split_from [] text)
