-- ===== src/Agents/Sessions.antt =====
-- What is read back of a chat session that was changed.
use model_weaver.Base.{
  ◌≡◌, refl, subst, sym, ap, ◌∙◌, String, false, Option, none, some, List, [], ◌∷◌, first_where,
  update_where, ◌==◌, text_eq, Bool-cases, Option-cases, inl, inr, nat_beq_iff,
}
use mathlib.Core.Option.{some-ne-none, some-injective}
use model_weaver.Base.Dict
use model_weaver.Fsm.Value.{Value, bool, text, arr, nil, Vars}
use model_weaver.Agents.{Agent, AgentsDb, is_agent}
use model_weaver.Agents.Chats.{
  is_named, get_by_name, ChatSession, get_or, session_of, get_chat_session, ChatUpdate, set_if,
  updated, update_chat_session,
}

-- The value, if one is given, or the old one.
abbrev pub given {ℓ} : {A : Type ℓ} → (A → Value) → Option A → Value → Value
given make none old = old
given make (some x) old = make x

-- A key that is set reads as what is given, any other as before.
get_or-set_if {ℓ} :
    {A : Type ℓ} (make : A → Value) (key : String) (x : Option A) (v : Vars) (default : Value)
    → get_or default (set_if make key x v) key ≡ given make x (get_or default v key)
unfolding get_or set_if
get_or-set_if make key none v default = refl
get_or-set_if make key (some x) v default = rw (Dict.lookup-insert_self v key (make x), get_or) refl

get_or-set_if_other {ℓ} :
    {A : Type ℓ} (make : A → Value) (key other : String) (x : Option A) (v : Vars) (default : Value)
    → (key == other) ≡ false
    → get_or default (set_if make key x v) other ≡ get_or default v other
unfolding get_or set_if
get_or-set_if_other make key other none v default apart = refl
get_or-set_if_other make key other (some x) v default apart =
    rw (Dict.lookup-insert v key other (make x), get_or) (simp apart refl)

-- The session with the settings of an update.
abbrev pub changed : ChatUpdate → ChatSession → ChatSession
changed u s = record s {
  system_prompt = given text u.system_prompt s.system_prompt;
  provider_ref = given text u.provider_ref s.provider_ref;
  model_ref = given text u.model_ref s.model_ref;
  allow_read_others = given bool u.allow_read_others s.allow_read_others;
}

-- The first row of a name is the first one after an update of its id that keeps the names.
first_where-update :
    (name : String) (f : Agent → Agent) (rows : List Agent) (row : Agent)
    → ((a : Agent) → (f a).name ≡ a.name)
    → first_where (is_named name) rows ≡ some row
    → first_where (is_named name) (update_where (is_agent row.agent_id) f rows) ≡ some (f row)
first_where-update name f [] row h e = absurd (some-ne-none row (sym e))
first_where-update name f (a ∷ rows) row h e = elim (Bool-cases (is_named name a)) [
  | inl it ↦
      subst
        (λ r.
          first_where (is_named name) (update_where (is_agent r.agent_id) f (a ∷ rows))
          ≡ some (f r))
        (some-injective a row (sym (simp it refl) ∙ e))
        (simp ((nat_beq_iff a.agent_id a.agent_id).1 refl, h a, it) refl)
  | inr other ↦
      let rest = first_where-update name f rows row h (sym (simp other refl) ∙ e) in
      elim (Bool-cases (is_agent row.agent_id a)) [
        | inl same ↦ simp (same, h a, other) rest
        | inr apart ↦ simp (apart, other) rest
      ]
]

-- What each key of an update reads as.
module _ (u : ChatUpdate) (v : Vars) where
  abbrev prompted : Vars
  prompted = set_if text "system_prompt" u.system_prompt v

  abbrev provided : Vars
  provided = set_if text "provider_ref" u.provider_ref prompted

  abbrev modelled : Vars
  modelled = set_if text "model_ref" u.model_ref provided

  -- A key that is none of the three that are set last.
  read-modelled :
      (default : Value) (key : String)
      → ("allow_read_others" == key) ≡ false
      → get_or default (updated u v) key ≡ get_or default modelled key
  unfolding updated
  read-modelled default key apart =
      get_or-set_if_other bool "allow_read_others" key u.allow_read_others modelled default apart

  read-provided :
      (default : Value) (key : String)
      → ("allow_read_others" == key) ≡ false
      → ("model_ref" == key) ≡ false
      → get_or default (updated u v) key ≡ get_or default provided key
  read-provided default key apart apart' =
      read-modelled default key apart
      ∙ get_or-set_if_other text "model_ref" key u.model_ref provided default apart'

  read-prompted :
      (default : Value) (key : String)
      → ("allow_read_others" == key) ≡ false
      → ("model_ref" == key) ≡ false
      → ("provider_ref" == key) ≡ false
      → get_or default (updated u v) key ≡ get_or default prompted key
  read-prompted default key apart apart' apart'' =
      read-provided default key apart apart'
      ∙ get_or-set_if_other text "provider_ref" key u.provider_ref prompted default apart''

  read-old :
      (default : Value) (key : String)
      → ("allow_read_others" == key) ≡ false
      → ("model_ref" == key) ≡ false
      → ("provider_ref" == key) ≡ false
      → ("system_prompt" == key) ≡ false
      → get_or default (updated u v) key ≡ get_or default v key
  read-old default key apart apart' apart'' last =
      read-prompted default key apart apart' apart''
      ∙ get_or-set_if_other text "system_prompt" key u.system_prompt v default last

  read-allowed :
      get_or (bool false) (updated u v) "allow_read_others"
      ≡ given bool u.allow_read_others (get_or (bool false) v "allow_read_others")
  unfolding updated
  read-allowed =
      get_or-set_if bool "allow_read_others" u.allow_read_others modelled (bool false)
      ∙ ap (given bool u.allow_read_others) (
          get_or-set_if_other text "model_ref" "allow_read_others" u.model_ref provided (bool false)
            refl
          ∙ get_or-set_if_other text "provider_ref" "allow_read_others" u.provider_ref prompted
              (bool false) refl
          ∙ get_or-set_if_other text "system_prompt" "allow_read_others" u.system_prompt v
              (bool false) refl)

session-changed :
    (u : ChatUpdate) (a : Agent)
    → session_of (record a { variables = updated u a.variables }) ≡ changed u (session_of a)
unfolding session_of
session-changed u a =
    let v = a.variables in
    let prompt =
      read-prompted u v (text "") "system_prompt" refl refl refl
      ∙ get_or-set_if text "system_prompt" u.system_prompt v (text "") in
    let provider =
      read-provided u v (text "") "provider_ref" refl refl
      ∙ get_or-set_if text "provider_ref" u.provider_ref (prompted u v) (text "")
      ∙ ap (given text u.provider_ref) (
          get_or-set_if_other text "system_prompt" "provider_ref" u.system_prompt v (text "")
            refl) in
    let model =
      read-modelled u v (text "") "model_ref" refl
      ∙ get_or-set_if text "model_ref" u.model_ref (provided u v) (text "")
      ∙ ap (given text u.model_ref) (
          get_or-set_if_other text "provider_ref" "model_ref" u.provider_ref (prompted u v)
            (text "") refl
          ∙ get_or-set_if_other text "system_prompt" "model_ref" u.system_prompt v (text "")
              refl) in
    let allow = read-allowed u v in
    let messages = read-old u v (arr nil) "messages" refl refl refl refl in
    λ i. record {
      agent_id = a.agent_id;
      name = a.name;
      provider_ref = provider i;
      model_ref = model i;
      system_prompt = prompt i;
      allow_read_others = allow i;
      messages = messages i;
    }

updated-row :
    (db : AgentsDb) (name : String) (u : ChatUpdate) (row : Agent)
    → first_where (is_named name) db.agents ≡ some row
    → get_chat_session (update_chat_session db name u).1 name
      ≡ some (session_of (record row { variables = updated u row.variables }))
unfolding get_chat_session get_by_name update_chat_session
updated-row db name u row found =
    let f : Agent → Agent = λ a. record a { variables = updated u row.variables } in
    let here = first_where-update name f db.agents row (λ a. refl) found in
    simp (found, update_chat_session) (simp (here, get_chat_session) refl)

-- A session that there is reads after an update as before, with the settings that the update gives
-- in place of its own.
pub get-update_chat_session :
    (db : AgentsDb) (name : String) (u : ChatUpdate) (s : ChatSession)
    → get_chat_session db name ≡ some s
    → get_chat_session (update_chat_session db name u).1 name ≡ some (changed u s)
unfolding get_chat_session get_by_name update_chat_session
get-update_chat_session db name u s e =
    elim (Option-cases (first_where (is_named name) db.agents)) [
      | inl missing ↦ absurd (some-ne-none s (sym e ∙ simp (missing, get_chat_session) refl))
      | inr (row, found) ↦
          let read =
            some-injective (session_of row) s (sym (simp (found, get_chat_session) refl) ∙ e) in
          updated-row db name u row found ∙ ap some (session-changed u row ∙ ap (changed u) read)
    ]
