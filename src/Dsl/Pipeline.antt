-- ===== src/Dsl/Pipeline.antt =====
-- AgentFrameWork/pipeline_executor.py: the steps on messages that the executor delegates and that
-- read nothing from outside.
use Prim.Native.String.{count}
use model_weaver.Base.{
  ◌⊎◌, ◌++◌, All, false, ℕ, ◌*◌, String, ◌+s◌, ◌||◌, ◌&&◌, List, [], ◌∷◌, map, ltb, ◌==◌,
  if◌then◌else◌, text_eq, ◌≡◌, refl, ap, Bool-cases, inl, inr,
}
use model_weaver.Fsm.Value.{first_chars}
use model_weaver.Fsm.State.{Message}

-- The content of the message that `concat` changes.
unfoldable pub joined : (position value content : String) → String
joined position value content =
    if position == "before"
    then value +s "\n" +s content
    else if position == "after"
    then content +s "\n" +s value
    else if position == "replace"
    then value
    else content

-- PipelineExecutor._step_concat, on the messages: the first one of the role is changed.
unfoldable pub concat : (position target value : String) → List Message → List Message
unfolding joined
concat position target value [] = []
concat position target value (msg ∷ messages) =
    if msg.role == target
    then record msg { content = joined position value msg.content } ∷ messages
    else msg ∷ concat position target value messages

-- What `truncate` does to one message.
unfoldable pub truncate : (max_chars : ℕ) → Message → Message
unfolding first_chars
truncate max_chars msg =
    if (msg.role == "system" || msg.role == "user") && ltb max_chars (count msg.content)
    then record msg { content = first_chars max_chars msg.content +s "\n...[tronqué]" }
    else msg

-- PipelineExecutor._step_translate_context, on the messages.
unfoldable pub translate : (strategy : String) (max_tokens : ℕ) → List Message → List Message
unfolding truncate
translate strategy max_tokens messages =
    if strategy == "truncate" then map (truncate (max_tokens * 4)) messages else messages

-- The contents `old` and `new` of a message that a concat of `value` at `position` changes.
pub data Changed (position value old new : String) : Type 0 where
  in_front : position ≡ "before" → new ≡ value +s "\n" +s old → Changed position value old new
  behind : position ≡ "after" → new ≡ old +s "\n" +s value → Changed position value old new
  replaced : position ≡ "replace" → new ≡ value → Changed position value old new
  kept :
      (position == "before") ≡ false
      → (position == "after") ≡ false
      → (position == "replace") ≡ false
      → new ≡ old
      → Changed position value old new

joined-Changed :
    (position value old : String) → Changed position value old (joined position value old)
unfolding joined
joined-Changed position value old = elim (Bool-cases (position == "before")) [
  | inl b ↦ Changed.in_front ((text_eq.beq_iff position "before").0 b) (simp b)
  | inr nb ↦ elim (Bool-cases (position == "after")) [
    | inl a ↦ Changed.behind ((text_eq.beq_iff position "after").0 a) (simp (nb, a))
    | inr na ↦ elim (Bool-cases (position == "replace")) [
      | inl r ↦ Changed.replaced ((text_eq.beq_iff position "replace").0 r) (simp (nb, na, r))
      | inr nr ↦ Changed.kept nb na nr (simp (nb, na, nr))
    ]
  ]
]

-- Another role than the target's.
abbrev pub Passed : (target : String) → List Message → Type 0
Passed target messages = All (λ (m : Message). (m.role == target) ≡ false) messages

-- The first message of the target's role is changed, and every other is as before.
pub record FirstChanged (position target value : String) (messages result : List Message)
    : Type 0 where
  pub before : List Message
  pub hit : Message
  pub after : List Message
  pub content : String
  pub split : messages ≡ before ++ hit ∷ after
  pub passed_over : Passed target before
  pub is_target : hit.role ≡ target
  pub changed : Changed position value hit.content content
  pub rebuilt : result ≡ before ++ record hit { content = content } ∷ after

-- concat changes the content of the first message of the target's role and nothing else: the value
-- goes in front of the content at the position before, behind it at the position after, each on a
-- line of its own, and takes its place at the position replace; at any other position the content
-- is kept. If no message has the role, the messages are as they were.
pub concat_lem :
    (position target value : String) (messages : List Message)
    → FirstChanged position target value messages (concat position target value messages)
      ⊎ (Passed target messages × (concat position target value messages ≡ messages))
unfolding concat
concat_lem position target value [] = inr (tt, refl)
concat_lem position target value (msg ∷ messages) = elim (Bool-cases (msg.role == target)) [
  | inl hit ↦ inl (record {
    before = [];
    hit = msg;
    after = messages;
    content = joined position value msg.content;
    split = refl;
    passed_over = tt;
    is_target = (text_eq.beq_iff msg.role target).0 hit;
    changed = joined-Changed position value msg.content;
    rebuilt = simp (hit, concat);
  })
  | inr miss ↦ elim (concat_lem position target value messages) [
    | inl c ↦ inl (record {
      before = msg ∷ c.before;
      hit = c.hit;
      after = c.after;
      content = c.content;
      split = ap (λ ms. msg ∷ ms) c.split;
      passed_over = (miss, c.passed_over);
      is_target = c.is_target;
      changed = c.changed;
      rebuilt = simp (miss, concat) (ap (λ ms. msg ∷ ms) c.rebuilt);
    })
    | inr (none_of_role, same) ↦
        inr ((miss, none_of_role), simp (miss, concat) (ap (λ ms. msg ∷ ms) same))
  ]
]
