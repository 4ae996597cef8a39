-- ===== src/Keys/Samples.antt =====
-- The keys at concrete tables.
use model_weaver.Base.{◌≡◌, refl, true, false, none, some, [], ◌∷◌, text_eq}
use model_weaver.Base.Dict
use model_weaver.Keys.{free, paid, unknown, get_row, KeyRow, Keys, Texts, set_lock}
use model_weaver.Keys.Manager.{
  set_key, extract_base, extract_meta, no_key, key_locked, plain, get_key, get_key_by_ref,
  meta_json,
}
use model_weaver.Keys.Reads.{set_lock-get_key_by_ref, set_key-get_key, set_key-forgets}

-- str writes a dict with single quotes, which json.loads refuses.
abbrev texts : Texts
texts = record {
  repr = λ d. "{'api_base': 'http://here'}";
  loads = λ t. none;
  new_ref = λ s. "key_2";
}

abbrev old_key : KeyRow
old_key = record {
  ref = "key_1";
  identity = "default";
  provider_ref = "p";
  locked = false;
  tag = paid;
  grade = none;
  health_status = unknown;
  error_count = 0;
  metadata_json = none;
}

abbrev stored : Keys
stored = record {
  rows = old_key ∷ [];
  providers = "p" ∷ [];
  store = ("key_1", "secret") ∷ [];
  cache = [];
  loaded = false;
}

-- The manager finds the key of the keyring, as long as it sets none.
get_key_sample :
    (get_key_by_ref texts stored "key_1").0
    ≡ plain (record {
      ref = "key_1";
      api_key = "secret";
      api_base = none;
      metadata = [];
      tag = paid;
      grade = none;
      health_status = unknown;
    })
unfolding get_key_by_ref Dict.lookup
get_key_sample = refl

set_lock-get_key_by_ref_example :
    ((get_key_by_ref texts (set_lock stored "key_1" true).1 "key_1").0 ≡ key_locked)
    × ((get_key_by_ref texts (set_lock (set_lock stored "key_1" true).1 "key_1" false).1 "key_1").0
        ≡ (get_key_by_ref texts stored "key_1").0)
unfolding get_row
set_lock-get_key_by_ref_example = set_lock-get_key_by_ref texts stored "key_1" old_key refl refl

-- The address that is set with a key is not read back.
set_key-get_key_example :
    (get_key texts
      (set_key texts stored "q" "word" (some "http://here") "default" free none []).1
      "q"
      "default").0
    ≡ plain (record {
      ref = "key_2";
      api_key = "word";
      api_base = none;
      metadata = [];
      tag = free;
      grade = none;
      health_status = unknown;
    })
unfolding extract_base extract_meta meta_json Dict.insert
set_key-get_key_example =
    set_key-get_key texts stored "q" "word" (some "http://here") "default" free none [] refl refl

set_key-forgets_example :
    ((get_key_by_ref texts
        (set_key texts stored "q" "word" none "default" free none []).1
        "key_1").0
      ≡ no_key)
    × (Dict.lookup (set_key texts stored "q" "word" none "default" free none []).1.store "key_1"
        ≡ Dict.lookup stored.store "key_1")
unfolding get_row
set_key-forgets_example =
    set_key-forgets texts stored "q" "word" none "default" free none [] old_key refl refl refl refl
      refl
