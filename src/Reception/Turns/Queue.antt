-- ===== src/Reception/Turns/Queue.antt =====
-- services/reception/orchestrator.py, `_queue_handoff`, and apps/reception/api.py: the rows of the
-- queue that wait for a conversation.
use fab_ai_smart_hotel_manag.Prelude.{
  ℕ, ◌+◌, ◌≤◌, ◌≡◌, refl, sym, ◌⊎◌, ◌∙◌, subst, inl, inr, Bool, true, false, Option, none, some,
  List, [], ◌∷◌, ◌++◌, arith, any, filter, find?, find?-head, find?-tail, find?-All, All, All-map,
  length, length-append, filter-append, update_where, Bool-cases, ◌==◌, if◌then◌else◌,
}
use mathlib.Core.Bool.{false≢true}
use fab_ai_smart_hotel_manag.Reception.Models.{
  Lobby, Handoff, handoff, HandoffReason, ConversationStatus, is_active, is_open,
}
use fab_ai_smart_hotel_manag.Reception.Turns.{
  is_waiting, queue_handoff, claim, close, rate, resolve_handoff,
}

-- The rows that wait for a conversation.
abbrev pub waiting : ℕ → List Handoff → ℕ
waiting c hs = length (filter (is_waiting c) hs)

-- At most one row waits for the conversation, and where one does it is handed over.
abbrev pub IsOrderly : Lobby → Type 0
IsOrderly l =
    (waiting l.conversation.pk l.handoffs ≤ 1)
    × (waiting l.conversation.pk l.handoffs ≡ 0 ⊎ l.conversation.status ≡ handoff)

any-waiting : (c : ℕ) (hs : List Handoff) → any (is_waiting c) hs ≡ false → waiting c hs ≡ 0
any-waiting c [] h = refl
any-waiting c (x ∷ xs) h = ground (arith, any-waiting c xs)

waiting-append : (c : ℕ) (xs ys : List Handoff) → waiting c (xs ++ ys) ≡ waiting c xs + waiting c ys
waiting-append c xs ys =
    rw (filter-append (is_waiting c) xs ys)
      (length-append (filter (is_waiting c) xs) (filter (is_waiting c) ys))

waiting_one : (c : ℕ) (x : Handoff) → waiting c (x ∷ []) ≤ 1
waiting_one c x = ground arith

waiting_queued :
    (c : ℕ) (hs : List Handoff) (x : Handoff)
    → waiting c hs ≤ 1
    → waiting c (if any (is_waiting c) hs then hs else hs ++ x ∷ []) ≤ 1
waiting_queued c hs x few = elim (Bool-cases (any (is_waiting c) hs)) [
  | inl there ↦ rw there few
  | inr missing ↦
      rw missing
        (omega (arith, waiting-append c hs (x ∷ []), any-waiting c hs missing, waiting_one c x))
]

pub queue_handoff-IsOrderly :
    (reason : HandoffReason) (l : Lobby) → IsOrderly l → IsOrderly (queue_handoff reason l)
unfolding queue_handoff
queue_handoff-IsOrderly reason l (few, handed) =
    (waiting_queued l.conversation.pk l.handoffs _ few, inr refl)

-- A change that leaves the waiting rows waiting, and the others not.
waiting_same :
    (c : ℕ) (p : Handoff → Bool) (f : Handoff → Handoff) (hs : List Handoff)
    → ((h : Handoff) → is_waiting c (f h) ≡ is_waiting c h)
    → waiting c (update_where p f hs) ≡ waiting c hs
waiting_same c p f [] same = refl
waiting_same c p f (x ∷ xs) same = ground (arith, same x, waiting_same c p f xs same)

none_waiting : (c : ℕ) (hs : List Handoff) → waiting c hs ≡ 0 → All (λ h. is_waiting c h ≡ false) hs
none_waiting c [] none_there = tt
none_waiting c (x ∷ xs) none_there = elim (Bool-cases (is_waiting c x)) [
  | inl t ↦ absurd (omega (arith, rw t at none_there))
  | inr f ↦ (f, none_waiting c xs (rw f at none_there))
]

-- Where at most one row waits, and the row that is found waits, every waiting row passes the test.
only_waiting :
    (c : ℕ) (p : Handoff → Bool) (hs : List Handoff) {h : Handoff}
    → waiting c hs ≤ 1
    → find? p hs ≡ some h
    → is_waiting c h ≡ true
    → All (λ x. is_waiting c x ≡ true → p x ≡ true) hs
only_waiting c p [] few found waits = tt
only_waiting c p (x ∷ xs) {h} few found waits = elim (Bool-cases (p x)) [
  | inl t ↦
      let own : is_waiting c x ≡ true =
        subst (λ y. is_waiting c y ≡ true) (sym (find?-head p x xs t found)) waits in
      let rest : waiting c xs ≡ 0 = omega (arith, rw own at few) in
      ((λ w. t), All-map _ _ xs (λ y f w. absurd (false≢true (sym f ∙ w))) (none_waiting c xs rest))
  | inr f ↦ elim (Bool-cases (is_waiting c x)) [
    | inl t ↦
        let rest : waiting c xs ≡ 0 = omega (arith, rw t at few) in
        absurd (
          false≢true
            (sym (find?-All _ p xs (none_waiting c xs rest) (find?-tail p x xs f found)) ∙ waits))
    | inr n ↦ (
      (λ w. absurd (false≢true (sym n ∙ w))),
      only_waiting c p xs (rw n at few) (find?-tail p x xs f found) waits,
    )
  ]
]

waiting_resolved :
    (c : ℕ) (p : Handoff → Bool) (now : ℕ) (hs : List Handoff)
    → All (λ x. is_waiting c x ≡ true → p x ≡ true) hs
    → waiting c (update_where p (λ (h : Handoff). record h { resolved_at = some now }) hs) ≡ 0
waiting_resolved c p now [] all = refl
waiting_resolved c p now (x ∷ xs) all = elim (Bool-cases (p x)) [
  | inl t ↦ rw t (ground (arith, waiting_resolved c p now xs all.1))
  | inr f ↦ elim (Bool-cases (is_waiting c x)) [
    | inl w ↦ absurd (false≢true (sym f ∙ all.0 w))
    | inr n ↦ rw (f, n) (waiting_resolved c p now xs all.1)
  ]
]

pub resolve_handoff-IsOrderly :
    (pk : ℕ) (l : Lobby) {h : Handoff}
    → find? (λ (x : Handoff). x.pk == pk) l.handoffs ≡ some h
    → is_waiting l.conversation.pk h ≡ true
    → IsOrderly l
    → IsOrderly (resolve_handoff pk l)
unfolding resolve_handoff
resolve_handoff-IsOrderly pk l found waits (few, handed) =
    let none_left =
      waiting_resolved l.conversation.pk (λ (x : Handoff). x.pk == pk) l.desk.now l.handoffs
        (only_waiting l.conversation.pk (λ (x : Handoff). x.pk == pk) l.handoffs few found waits) in
    (omega (arith, none_left), inl none_left)

pub claim-IsOrderly : (pk user : ℕ) (l : Lobby) → IsOrderly l → IsOrderly (claim pk user l)
claim-IsOrderly pk user l orderly =
    rw
      (waiting_same l.conversation.pk (λ (h : Handoff). h.pk == pk)
        (λ (h : Handoff). record h { claimed_by = some user; claimed_at = some l.desk.now })
        l.handoffs (λ h. refl))
      orderly

rate-IsOrderly : (n : Option ℕ) (l : Lobby) → IsOrderly l → IsOrderly (rate n l)
rate-IsOrderly none l orderly = orderly
rate-IsOrderly (some n) l orderly = orderly

not_handed : (s : ConversationStatus) → is_active s ≡ true → s ≡ handoff → ⊥
not_handed s on is = false≢true (rw is at on)

-- A conversation that is still the assistant's own has no row that waits, so its closing leaves none.
pub close-IsOrderly : (n : Option ℕ) (l : Lobby) → IsOrderly l → IsOrderly (close n l)
unfolding close
close-IsOrderly n before orderly =
    let l : Lobby = rate n before in
    let (few, handed) = rate-IsOrderly n before orderly in
    elim (Bool-cases (is_open l.conversation)) [
      | inl on ↦ rw on (
        few,
        elim handed [ inl none_there ↦ inl none_there | inr is ↦ absurd (not_handed _ on is) ],
      )
      | inr off ↦ rw off (few, handed)
    ]
