-- ===== src/Keys/Reads.antt =====
-- What is read back of a key that was set, locked or kept in the keyring.
use model_weaver.Base.{
  ◌≡◌, refl, sym, ap, ◌∙◌, String, Bool, true, false, Option, none, some, List, [], ◌∷◌, ◌++◌, any,
  select, select-none, select-append, first_where, first_where-update_where, first_where-append,
  order_by, ◌==◌, if◌then◌else◌, text_eq, eq_refl, Bool-cases, inl, inr, contains,
}
use model_weaver.Base.Dict
use model_weaver.Fsm.Value.{Vars, nonempty}
use model_weaver.Keys.{
  Tag, unknown, KeyRow, Keys, Texts, load, ensure_loaded, is_key_of, get_any_for_provider, is_ref,
  get_row, save_row, remember, set_lock,
}
use model_weaver.Keys.Manager.{
  meta_json, know_provider, put_key, set_key, extract_base, extract_meta, no_key, key_locked, plain,
  reveal, get_key, get_key_by_ref, if_unlocked, if_usable,
}

abbrev with_lock : Bool → KeyRow → KeyRow
with_lock locked k = record k { locked = locked }

ensure_loaded-rows : (s : Keys) → (ensure_loaded s).rows ≡ s.rows
unfolding ensure_loaded load
ensure_loaded-rows s = elim (Bool-cases s.loaded) [ inl e ↦ simp e refl | inr e ↦ simp e refl ]

module _ (py : Texts) where
  -- Of a row the answer is what its lock says.
  get_key_by_ref-row :
      (s : Keys) (ref : String) (k : KeyRow)
      → get_row s ref ≡ some k
      → (get_key_by_ref py s ref).0
        ≡ (if k.locked then key_locked else reveal py (ensure_loaded s) k)
  unfolding get_key_by_ref get_row if_unlocked
  get_key_by_ref-row s ref k e =
      ap (if_unlocked py (ensure_loaded s))
        (ap (first_where (is_ref ref)) (ensure_loaded-rows s) ∙ e)

  set_lock-row :
      (s : Keys) (ref : String) (k : KeyRow) (locked : Bool)
      → get_row s ref ≡ some k
      → get_row (set_lock s ref locked).1 ref ≡ some (with_lock locked k)
  unfolding get_row set_lock
  set_lock-row s ref k locked e =
      first_where-update_where (is_ref ref) (with_lock locked) s.rows k (λ r h. h) e

  reveal-set_lock :
      (s : Keys) (ref : String) (k : KeyRow) (b c : Bool)
      → reveal py
          (ensure_loaded (set_lock (set_lock s ref b).1 ref c).1)
          (with_lock c (with_lock b k))
        ≡ reveal py (ensure_loaded s) k
  unfolding reveal ensure_loaded load set_lock extract_base extract_meta
  reveal-set_lock s ref k b c = elim (Bool-cases s.loaded) [
    | inl e ↦ simp e refl
    | inr e ↦ simp e refl
  ]

  -- A key that is there and not locked is refused once it is locked, and once it is unlocked again
  -- it is read as before.
  pub set_lock-get_key_by_ref :
      (s : Keys) (ref : String) (k : KeyRow)
      → get_row s ref ≡ some k
      → k.locked ≡ false
      → ((get_key_by_ref py (set_lock s ref true).1 ref).0 ≡ key_locked)
        × ((get_key_by_ref py (set_lock (set_lock s ref true).1 ref false).1 ref).0
            ≡ (get_key_by_ref py s ref).0)
  set_lock-get_key_by_ref s ref k e unlocked_before =
      let locked = set_lock-row s ref k true e in
      let unlocked = set_lock-row (set_lock s ref true).1 ref (with_lock true k) false locked in
      (
        get_key_by_ref-row (set_lock s ref true).1 ref (with_lock true k) locked,
        get_key_by_ref-row (set_lock (set_lock s ref true).1 ref false).1 ref (with_lock false k)
              unlocked
            ∙ reveal-set_lock s ref k true false
            ∙ sym (get_key_by_ref-row s ref k e ∙ simp unlocked_before refl),
      )

  lookup-empty : (ref : String) → Dict.lookup {V = String} [] ref ≡ none
  unfolding Dict.lookup
  lookup-empty ref = refl

  -- The row of a key that is set for the first time.
  abbrev pub new_row :
      Keys
      → (provider_ref : String) (api_base : Option String) (identity : String) → Tag
      → (grade : Option String) (metadata : Vars) → KeyRow
  new_row s provider_ref api_base identity tag grade metadata = record {
    ref = py.new_ref (know_provider py provider_ref s);
    identity = identity;
    provider_ref = provider_ref;
    locked = false;
    tag = tag;
    grade = grade;
    health_status = unknown;
    error_count = 0;
    metadata_json = meta_json py api_base metadata;
  }

  know_provider-same :
      (s : Keys) (provider_ref : String)
      → ((know_provider py provider_ref s).rows ≡ s.rows)
        × ((know_provider py provider_ref s).cache ≡ s.cache)
        × ((know_provider py provider_ref s).store ≡ s.store)
  unfolding know_provider
  know_provider-same s provider_ref = elim (Bool-cases (contains s.providers provider_ref)) [
    | inl e ↦ simp (e, know_provider) (refl, refl, refl)
    | inr e ↦ simp (e, know_provider) (refl, refl, refl)
  ]

  no_row :
      (s : Keys) (provider_ref identity : String)
      → any (is_key_of provider_ref identity) s.rows ≡ false
      → get_any_for_provider s provider_ref identity ≡ none
  unfolding get_any_for_provider order_by
  no_row s provider_ref identity free =
      rw (select-none (is_key_of provider_ref identity) s.rows free) refl

  -- A key that is set where there was none is one more row.
  set_key-new :
      (s : Keys) (provider_ref api_key : String) (api_base : Option String) (identity : String)
      (tag : Tag) (grade : Option String) (metadata : Vars)
      → any (is_key_of provider_ref identity) s.rows ≡ false
      → let known = know_provider py provider_ref s in
        set_key py s provider_ref api_key api_base identity tag grade metadata
        ≡ put_key py known none provider_ref api_key identity tag grade
            (meta_json py api_base metadata)
  unfolding set_key
  set_key-new s provider_ref api_key api_base identity tag grade metadata free =
      let known = know_provider py provider_ref s in
      let meta = meta_json py api_base metadata in
      ap (λ found. put_key py known found provider_ref api_key identity tag grade meta)
        (no_row known provider_ref identity
          (ap (any (is_key_of provider_ref identity)) (know_provider-same s provider_ref).0 ∙ free))

  -- The row of a new key is the one that is found for its provider and identity.
  new_row-found :
      (s : Keys) (rows : List KeyRow) (k : KeyRow)
      → any (is_key_of k.provider_ref k.identity) rows ≡ false
      → s.rows ≡ rows ++ k ∷ []
      → get_any_for_provider s k.provider_ref k.identity ≡ some k
  unfolding get_any_for_provider order_by
  new_row-found s rows k free e =
      let q = is_key_of k.provider_ref k.identity in
      let chosen =
        ap (select q) e
        ∙ select-append q rows (k ∷ [])
        ∙ ap (λ rs. rs ++ select q (k ∷ [])) (select-none q rows free) in
      rw chosen (simp (eq_refl k.provider_ref, eq_refl k.identity) refl)

  reveal-cached :
      (s : Keys) (k : KeyRow) (api_key : String)
      → nonempty (Dict.lookup s.cache k.ref) ≡ some api_key
      → reveal py s k
        ≡ plain (record {
          ref = k.ref;
          api_key = api_key;
          api_base = extract_base py k;
          metadata = extract_meta py k;
          tag = k.tag;
          grade = k.grade;
          health_status = k.health_status;
        })
  unfolding reveal
  reveal-cached s k api_key e = simp (e, reveal) refl

  reveal-uncached :
      (s : Keys) (k : KeyRow) → Dict.lookup s.cache k.ref ≡ none → reveal py s k ≡ no_key
  unfolding reveal
  reveal-uncached s k e = simp (e, reveal) refl

  if_unlocked-uncached :
      (s : Keys) (k : KeyRow)
      → k.locked ≡ false
      → Dict.lookup s.cache k.ref ≡ none
      → if_unlocked py s (some k) ≡ no_key
  unfolding if_unlocked
  if_unlocked-uncached s k unlocked e = simp unlocked (reveal-uncached s k e)

  -- A key that is set for a provider and an identity that have none, and that is not empty, is read
  -- back in plain text, with its tag and grade; its api_base and its metadata are what json.loads
  -- makes of the text that str gave for them.
  pub set_key-get_key :
      (s : Keys) (provider_ref api_key : String) (api_base : Option String) (identity : String)
      (tag : Tag) (grade : Option String) (metadata : Vars)
      → any (is_key_of provider_ref identity) s.rows ≡ false
      → nonempty (some api_key) ≡ some api_key
      → let k = new_row s provider_ref api_base identity tag grade metadata in
        (get_key py
          (set_key py s provider_ref api_key api_base identity tag grade metadata).1
          provider_ref
          identity).0
        ≡ plain (record {
          ref = k.ref;
          api_key = api_key;
          api_base = extract_base py k;
          metadata = extract_meta py k;
          tag = tag;
          grade = grade;
          health_status = unknown;
        })
  unfolding get_key put_key remember save_row ensure_loaded if_usable
  set_key-get_key s provider_ref api_key api_base identity tag grade metadata free key =
      let known = know_provider py provider_ref s in
      let k = new_row s provider_ref api_base identity tag grade metadata in
      let s' =
        (put_key py known none provider_ref api_key identity tag grade
          (meta_json py api_base metadata)).1 in
      let same = (know_provider-same s provider_ref).0 in
      rw (set_key-new s provider_ref api_key api_base identity tag grade metadata free) (
        ap (if_usable py s') (
          new_row-found s' known.rows k (ap (any (is_key_of provider_ref identity)) same ∙ free)
            refl)
        ∙ reveal-cached s' k api_key
            (ap nonempty (Dict.lookup-insert_self known.cache k.ref api_key) ∙ key))

  -- A manager whose cache is empty, and that sets a new key for a provider and an identity that
  -- have none, takes its cache for complete: an unlocked key of another ref, which the keyring
  -- still holds, is then not found.
  pub set_key-forgets :
      (s : Keys) (provider_ref api_key : String) (api_base : Option String) (identity : String)
      (tag : Tag) (grade : Option String) (metadata : Vars) (other : KeyRow)
      → any (is_key_of provider_ref identity) s.rows ≡ false
      → get_row s other.ref ≡ some other
      → other.locked ≡ false
      → s.cache ≡ []
      → (py.new_ref (know_provider py provider_ref s) == other.ref) ≡ false
      → let s' = (set_key py s provider_ref api_key api_base identity tag grade metadata).1 in
        ((get_key_by_ref py s' other.ref).0 ≡ no_key)
        × (Dict.lookup s'.store other.ref ≡ Dict.lookup s.store other.ref)
  unfolding get_key_by_ref put_key remember save_row ensure_loaded if_unlocked get_row
  set_key-forgets s provider_ref api_key api_base identity tag grade metadata other free found
        unlocked empty apart =
      let known = know_provider py provider_ref s in
      let (rows, cache, store) = know_provider-same s provider_ref in
      let s' =
        (put_key py known none provider_ref api_key identity tag grade
          (meta_json py api_base metadata)).1 in
      rw (set_key-new s provider_ref api_key api_base identity tag grade metadata free) (
        ap (if_unlocked py s') (
              first_where-append (is_ref other.ref) known.rows _ other
                (ap (first_where (is_ref other.ref)) rows ∙ found))
            ∙ if_unlocked-uncached s' other unlocked (
                Dict.lookup-insert known.cache (py.new_ref known) other.ref api_key
                ∙ simp apart
                    (ap (λ d. Dict.lookup d other.ref) (cache ∙ empty) ∙ lookup-empty other.ref)),
        Dict.lookup-insert known.store (py.new_ref known) other.ref api_key
            ∙ simp apart (ap (λ d. Dict.lookup d other.ref) store),
      )
