-- ===== src/Agents/Suspend/Memquestions.antt =====
-- agents/suspend/memquestions/memquestions.go: the store of questions in memory.
use go_driftlessaf.Base.{
  ◌≡◌, arith, String, Option, none, some, List, if◌then◌else◌, lookup, insert, remove, str_eq,
  lookup-insert, eq_refl,
}
use go_driftlessaf.Workqueue.Interface.{ok}
use go_driftlessaf.Agents.Suspend.{Question, Answer, QuestionStore}

pub record Entry : Type 0 where
  pub q : Question
  pub answer : Option Answer

abbrev pub Entries : Type 0
Entries = List (String × Entry)

unfoldable pub ask : String → Question → Entries → Entries
ask key q m = insert key (record { q = q; answer = none }) m

unfoldable pub pending : String → Entries → Option Question
pending key m = elim (lookup key m) [ none ↦ none | some e ↦ some e.q ]

-- An answer is shown only if it is bound to the question that stands.
bound : Question → Option Answer → Option Answer
bound q none = none
bound q (some a) = if str_eq a.question_id q.id then some a else none

unfoldable pub answer_to : String → Entries → Option Answer
unfolding bound
answer_to key m = elim (lookup key m) [ none ↦ none | some e ↦ bound e.q e.answer ]

unfoldable pub consume : String → String → Entries → Entries
consume key question_id m = elim (lookup key m) [
  | none ↦ m
  | some e ↦ if str_eq e.q.id question_id then remove key m else m
]

reply_to : Question → String → Entry
reply_to q text = record {
  q = q;
  answer = some (record { question_id = q.id; text = text; answered_at = q.asked_at });
}

-- Provide: a person answers the question that stands.
unfoldable pub provide : String → String → Entries → Option Question × Entries
unfolding reply_to
provide key text m = elim (lookup key m) [
  | none ↦ (none, m)
  | some e ↦ (some e.q, insert key (reply_to e.q text) m)
]

abbrev pub memquestions : QuestionStore
memquestions = record {
  State = Entries;
  ask = λ k q m. (none, ask k q m);
  pending = λ k m. ok (pending k m);
  answer = λ k m. ok (answer_to k m);
  consume = λ k id m. (none, consume k id m);
}

pub answer_to-ask : (key : String) (q : Question) (m : Entries) → answer_to key (ask key q m) ≡ none
unfolding answer_to ask bound
answer_to-ask key q m =
    ground (arith, lookup-insert key key (record { q = q; answer = none }) m, eq_refl key)

-- A person's answer to the question that was asked last.
pub answer_to-provide :
    (key text : String) (q : Question) (m : Entries)
    → answer_to key (provide key text (ask key q m)).1
      ≡ some (record { question_id = q.id; text = text; answered_at = q.asked_at })
unfolding answer_to provide ask bound reply_to
answer_to-provide key text q m = ground (
  arith,
  lookup-insert key key (record { q = q; answer = none }) m,
  lookup-insert key key (reply_to q text) (insert key (record { q = q; answer = none }) m),
  eq_refl key,
  eq_refl q.id,
)
