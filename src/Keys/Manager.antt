-- ===== src/Keys/Manager.antt =====
-- KeyManager.set_key, get_key and get_key_by_ref of modules/key_manager/key_manager.py.
use model_weaver.Base.{
  String, Bool, true, false, Option, none, some, [], ◌∷◌, ◌++◌, contains, if◌then◌else◌, text_eq,
}
use model_weaver.Base.Dict
use model_weaver.Fsm.Value.{Value, text, Vars, nonempty}
use model_weaver.Keys.{
  Tag, Health, unknown, ok, degraded, KeyRow, Keys, Texts, ensure_loaded, get_any_for_provider,
  get_row, update_row, save_row, remember,
}

-- The answer of get_key and of get_key_by_ref.
pub record PlainKey : Type 0 where
  pub ref : String
  pub api_key : String
  pub api_base : Option Value
  pub metadata : Vars
  pub tag : Tag
  pub grade : Option String
  pub health_status : Health

pub data KeyReply : Type 0 where
  no_key key_locked : KeyReply
  plain : PlainKey → KeyReply

abbrev pub is_healthy : Health → Bool
is_healthy unknown = true
is_healthy ok = true
is_healthy degraded = true
is_healthy _ = false

module _ (py : Texts) where
  -- meta_json
  unfoldable pub meta_json : (api_base : Option String) (metadata : Vars) → Option String
  meta_json api_base metadata =
      let meta : Vars = elim (nonempty api_base) [
        | none ↦ metadata
        | some base ↦ Dict.insert metadata "api_base" (text base)
      ] in
      elim meta [ [] ↦ none | ◌∷◌ m ms ↦ some (py.repr (m ∷ ms)) ]

  -- self.db.providers.save, of a provider that is not there
  unfoldable pub know_provider : (provider_ref : String) → Keys → Keys
  know_provider provider_ref s =
      if contains s.providers provider_ref
      then s
      else record s { providers = s.providers ++ provider_ref ∷ [] }

  -- The key of the row that was found, or of a new row.
  unfoldable pub put_key :
      Keys
      → Option KeyRow
      → (provider_ref api_key identity : String) → Tag
      → (grade meta : Option String) → String × Keys
  unfolding update_row save_row remember
  put_key s (some k) provider_ref api_key identity tag grade meta =
      (k.ref, remember (update_row s k.ref tag grade meta) k.ref api_key)
  put_key s none provider_ref api_key identity tag grade meta =
      let ref = py.new_ref s in
      (ref, remember (save_row s ref provider_ref identity tag grade meta) ref api_key)

  -- KeyManager.set_key: the ref of the key
  unfoldable pub set_key :
      Keys
      → (provider_ref api_key : String) (api_base : Option String) (identity : String) → Tag
      → (grade : Option String) (metadata : Vars) → String × Keys
  unfolding put_key meta_json know_provider
  set_key s provider_ref api_key api_base identity tag grade metadata =
      let known = know_provider provider_ref s in
      put_key known (get_any_for_provider known provider_ref identity) provider_ref api_key identity
        tag grade (meta_json api_base metadata)

  -- KeyManager._extract_base, nothing where it answers None
  unfoldable pub extract_base : KeyRow → Option Value
  extract_base k = elim (nonempty k.metadata_json) [
    | none ↦ none
    | some meta ↦ elim (py.loads meta) [ none ↦ none | some d ↦ Dict.lookup d "api_base" ]
  ]

  -- KeyManager._extract_meta
  unfoldable pub extract_meta : KeyRow → Vars
  extract_meta k = elim (nonempty k.metadata_json) [
    | none ↦ []
    | some meta ↦ elim (py.loads meta) [ none ↦ [] | some d ↦ Dict.remove d "api_base" ]
  ]

  -- The key of a row in plain text, if the cache has one.
  unfoldable pub reveal : Keys → KeyRow → KeyReply
  unfolding extract_base extract_meta
  reveal s k = elim (nonempty (Dict.lookup s.cache k.ref)) [
    | none ↦ no_key
    | some api_key ↦ plain (record {
      ref = k.ref;
      api_key = api_key;
      api_base = extract_base k;
      metadata = extract_meta k;
      tag = k.tag;
      grade = k.grade;
      health_status = k.health_status;
    })
  ]

  -- What get_key answers of the row that it found.
  unfoldable pub if_usable : Keys → Option KeyRow → KeyReply
  unfolding reveal
  if_usable s none = no_key
  if_usable s (some k) =
      if k.locked then key_locked else if is_healthy k.health_status then reveal s k else no_key

  -- KeyManager.get_key
  unfoldable pub get_key : Keys → (provider_ref identity : String) → KeyReply × Keys
  unfolding ensure_loaded get_any_for_provider if_usable
  get_key s provider_ref identity =
      let s' = ensure_loaded s in (if_usable s' (get_any_for_provider s' provider_ref identity), s')

  -- What get_key_by_ref answers of the row that it found.
  unfoldable pub if_unlocked : Keys → Option KeyRow → KeyReply
  unfolding reveal
  if_unlocked s none = no_key
  if_unlocked s (some k) = if k.locked then key_locked else reveal s k

  -- KeyManager.get_key_by_ref
  unfoldable pub get_key_by_ref : Keys → (ref : String) → KeyReply × Keys
  unfolding ensure_loaded get_row if_unlocked
  get_key_by_ref s ref = let s' = ensure_loaded s in (if_unlocked s' (get_row s' ref), s')
