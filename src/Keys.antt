-- ===== src/Keys.antt =====
-- The keys of the providers: KeyManager of modules/key_manager/key_manager.py over KeyRepository of
-- modules/sql/db.py and the keyring of the operating system.
pub mod Manager
pub mod Reads
mod Samples
use model_weaver.Base.{
  ℕ, ◌+◌, String, Bool, true, false, ◌&&◌, ◌||◌, Option, none, some, List, [], ◌∷◌, ◌++◌, any,
  select, update_where, delete_where, first_where, order_by, contains, leb, ◌==◌, if◌then◌else◌,
  text_eq,
}
use model_weaver.Base.Dict
use model_weaver.Base.Dict.{Dict}
use model_weaver.Fsm.Value.{Value, text, Vars, nonempty}

pub data Tag : Type 0 where
  free paid : Tag

pub data Health : Type 0 where
  unknown ok degraded suspicious dead user_disabled : Health

-- A row of api_keys, joined with its provider.
pub record KeyRow : Type 0 where
  pub ref : String
  pub identity : String
  pub provider_ref : String
  pub locked : Bool
  pub tag : Tag
  pub grade : Option String
  pub health_status : Health
  pub error_count : ℕ
  pub metadata_json : Option String

-- The tables, the table of secrets in the keyring, and the cache of the manager.
pub record Keys : Type 0 where
  pub rows : List KeyRow
  pub providers : List String
  pub store : Dict String String
  pub cache : Dict String String
  pub loaded : Bool

-- Python's str of a dict, json.loads of a text that is meant to be a dict, which may raise, and the
-- uuid of a new key.
pub record Texts : Type 0 where
  pub repr : Vars → String
  pub loads : String → Option Vars
  pub new_ref : Keys → String

-- KeyManager.load
unfoldable pub load : Keys → Keys
load s = record s { cache = s.store; loaded = true }

-- KeyManager._ensure_loaded
unfoldable pub ensure_loaded : Keys → Keys
unfolding load
ensure_loaded s = if s.loaded then s else load s

abbrev pub is_key_of : (provider_ref identity : String) → KeyRow → Bool
is_key_of provider_ref identity k = k.provider_ref == provider_ref && k.identity == identity

-- ORDER BY health_status = 'ok' DESC, health_status = 'unknown' DESC
abbrev pub health_rank : Health → ℕ
health_rank ok = 0
health_rank unknown = 1
health_rank _ = 2

abbrev pub first_row {ℓ} : {A : Type ℓ} → List A → Option A
first_row [] = none
first_row (r ∷ rows) = some r

-- KeyRepository.get_any_for_provider
unfoldable pub get_any_for_provider : Keys → (provider_ref identity : String) → Option KeyRow
unfolding order_by
get_any_for_provider s provider_ref identity = first_row (
    order_by (λ a b. leb (health_rank a.health_status) (health_rank b.health_status))
      (select (is_key_of provider_ref identity) s.rows))

abbrev pub is_ref : String → KeyRow → Bool
is_ref ref k = k.ref == ref

-- KeyRepository.get
unfoldable pub get_row : Keys → (ref : String) → Option KeyRow
get_row s ref = first_where (is_ref ref) s.rows

abbrev pub or_old {ℓ} : {A : Type ℓ} → Option A → Option A → Option A
or_old none old = old
or_old (some x) old = some x

-- KeyRepository.update, whose tag set_key always gives
unfoldable pub update_row :
    Keys → (ref : String) → Tag → (grade metadata_json : Option String) → Keys
update_row s ref tag grade metadata_json = record s {
  rows =
      update_where (is_ref ref)
        (λ k. record k {
          tag = tag;
          grade = or_old grade k.grade;
          metadata_json = or_old metadata_json k.metadata_json;
        })
        s.rows;
}

-- KeyRepository.save
unfoldable pub save_row :
    Keys → (ref provider_ref identity : String) → Tag → (grade metadata_json : Option String) → Keys
save_row s ref provider_ref identity tag grade metadata_json = record s {
  rows =
      s.rows
      ++ record {
        ref = ref;
        identity = identity;
        provider_ref = provider_ref;
        locked = false;
        tag = tag;
        grade = grade;
        health_status = unknown;
        error_count = 0;
        metadata_json = metadata_json;
      }
        ∷ [];
}

-- self.store.set(ref, api_key) and what follows
unfoldable pub remember : Keys → (ref api_key : String) → Keys
remember s ref api_key = record s {
  store = Dict.insert s.store ref api_key;
  cache = Dict.insert s.cache ref api_key;
  loaded = true;
}

-- KeyManager.is_locked
unfoldable pub is_locked : Keys → (ref : String) → Bool
unfolding get_row
is_locked s ref = elim (get_row s ref) [ none ↦ false | some k ↦ k.locked ]

-- KeyManager.set_lock: whether a row was changed
unfoldable pub set_lock : Keys → (ref : String) (locked : Bool) → Bool × Keys
set_lock s ref locked = (
  any (is_ref ref) s.rows,
  record s { rows = update_where (is_ref ref) (λ k. record k { locked = locked }) s.rows },
)

-- KeyManager.delete_key: whether a row was deleted
unfoldable pub delete_key : Keys → (ref : String) → Bool × Keys
delete_key s ref = (
  any (is_ref ref) s.rows,
  record s {
    rows = delete_where (is_ref ref) s.rows;
    store = Dict.remove s.store ref;
    cache = Dict.remove s.cache ref;
  },
)

-- KeyManager.update_health, without the time and the text of the error
unfoldable pub update_health : Keys → (ref : String) → Health → (is_error : Bool) → Keys
update_health s ref health is_error = record s {
  rows =
      update_where (is_ref ref)
        (λ k. record k {
          health_status = health;
          error_count = if is_error then k.error_count + 1 else k.error_count;
        })
        s.rows;
}
