-- ===== src/Api/AskCache.antt =====
-- `askCache` of internal/api/ask_cache.go: the answers of /ask, least recently used ones evicted. An
-- element of the list `order` has an address, to which the map `entries` leads; the counters of hits
-- and misses are unbounded.
pub mod Linked
mod Keys
mod Steps
pub mod Refines
mod Puts
pub mod Runs
use eidetic_daemon.Prelude.{
  ℕ, suc, ◌+◌, ltb, ◌==◌, not, ℤ, ltb_ℤ, ◌+ℤ◌, Option, none, some, List, [], ◌∷◌, filter, find,
  length, last?, if◌then◌else◌,
}
use eidetic_daemon.TextSearch.{Text, same_text}

-- list.Element with its *askEntry
pub record Element (V : Type 0) : Type 0 where
  pub address : ℕ
  pub key : Text
  pub value : V
  pub expires_at : ℤ

pub record AskCache (V : Type 0) : Type 0 where
  pub max : ℕ
  pub ttl : ℤ
  -- front = most recently used
  pub order : List (Element V)
  pub entries : List (Text × ℕ)
  -- the address of the next element
  pub fresh : ℕ
  pub hits : ℕ
  pub misses : ℕ

module _ {V : Type 0} where
  abbrev pub new_ask_cache : ℕ → ℤ → AskCache V
  new_ask_cache max ttl = record {
    max = max;
    ttl = ttl;
    order = [];
    entries = [];
    fresh = 0;
    hits = 0;
    misses = 0;
  }

-- c.entries[key], and delete(c.entries, key)
unfoldable pub entry : Text → List (Text × ℕ) → Option ℕ
entry key [] = none
entry key ((k, a) ∷ entries) =
    let rest = entry key entries in if same_text k key then some a else rest

unfoldable pub delete_entry : Text → List (Text × ℕ) → List (Text × ℕ)
delete_entry key [] = []
delete_entry key ((k, a) ∷ entries) =
    let rest = delete_entry key entries in if same_text k key then rest else (k, a) ∷ rest

module _ {V : Type 0} where
  -- The element at an address, and the list without it.
  abbrev pub element : ℕ → List (Element V) → Option (Element V)
  element a = find (λ el. el.address == a)

  abbrev pub remove : ℕ → List (Element V) → List (Element V)
  remove a = filter (λ el. not (el.address == a))

  abbrev pub missed : AskCache V → AskCache V
  missed c = record c { misses = c.misses + 1 }

  abbrev pub expire : Text → Element V → AskCache V → AskCache V
  expire key el c = record c {
    order = remove el.address c.order;
    entries = delete_entry key c.entries;
  }

  -- MoveToFront, with what the element holds from now on
  abbrev pub move_to_front : Element V → AskCache V → AskCache V
  move_to_front el c = record c { order = el ∷ remove el.address c.order }

  unfoldable pub get_element : ℤ → Text → Option (Element V) → AskCache V → Option V × AskCache V
  get_element now key none c = (none, missed c)
  get_element now key (some el) c =
      if ltb_ℤ el.expires_at now
      then (none, missed (expire key el c))
      else (some el.value, record (move_to_front el c) { hits = c.hits + 1 })

  abbrev pub lookup : Text → AskCache V → Option (Element V)
  lookup key c = elim (entry key c.entries) [ none ↦ none | some a ↦ element a c.order ]

  unfoldable pub get : ℤ → Text → AskCache V → Option V × AskCache V
  unfolding get_element
  get now key c = get_element now key (lookup key c) c

  abbrev pub evict_element : Option (Element V) → AskCache V → AskCache V
  evict_element none c = c
  evict_element (some oldest) c = expire oldest.key oldest c

  unfoldable pub evict : AskCache V → AskCache V
  evict c = if ltb c.max (length c.order) then evict_element (last? c.order) c else c

  abbrev pub push_front : ℤ → Text → V → AskCache V → AskCache V
  push_front now key value c = record c {
    order =
        record { address = c.fresh; key = key; value = value; expires_at = now +ℤ c.ttl } ∷ c.order;
    entries = (key, c.fresh) ∷ delete_entry key c.entries;
    fresh = suc c.fresh;
  }

  unfoldable pub put_element : ℤ → Text → V → Option (Element V) → AskCache V → AskCache V
  unfolding evict
  put_element now key value none c = evict (push_front now key value c)
  put_element now key value (some el) c =
      move_to_front (record el { value = value; expires_at = now +ℤ c.ttl }) c

  unfoldable pub put : ℤ → Text → V → AskCache V → AskCache V
  unfolding put_element
  put now key value c = put_element now key value (lookup key c) c

  -- Stats
  abbrev pub cache_stats : AskCache V → ℕ × ℕ × ℕ
  cache_stats c = (c.hits, c.misses, length c.order)
