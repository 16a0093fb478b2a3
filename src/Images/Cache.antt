-- ===== src/Images/Cache.antt =====
-- internal/images/cache.go: a map behind a lock, keyed by the text that a key renders to. Each
-- method holds the lock throughout, so it is one step.
pub mod Laws
use application_controller.Common.{
  String, ◌≡◌, Bool, true, false, Option, none, some, List, [], ◌∷◌, ◌++◌, GoMap, lookup, insert,
  delete, keys, length, ℕ, map, string_eq,
}

pub record Cache (V : Type 0) : Type 0 where
  pub entries : GoMap String V

module _ {V : Type 0} where
  -- NewCache
  unfoldable pub new_cache : Cache V
  new_cache = record { entries = [] }

  -- Len
  pub len : Cache V → ℕ
  len c = length c.entries

-- seen[k] of a map of booleans; a missing key reads as false
unfoldable pub flag : Option Bool → Bool
flag none = false
flag (some b) = b

-- for _, key := range keys { seen[key.CacheKey()] = true }
mark : GoMap String Bool → List String → GoMap String Bool
mark seen [] = seen
mark seen (k ∷ ks) = mark (insert k true seen) ks

-- for k := range c.cache { if seen[k] { continue }; unwantedKeys = append(unwantedKeys, k) }
unwanted : GoMap String Bool → List String → List String
unfolding flag
unwanted seen [] = []
unwanted seen (k ∷ ks) = elim (flag (lookup k seen)) [
  | true ↦ unwanted seen ks
  | false ↦ k ∷ unwanted seen ks
]

module _ {V : Type 0} where
  -- pruned[k] = c.cache[k]
  move : String → Option V → GoMap String V → GoMap String V
  move k none pruned = pruned
  move k (some v) pruned = insert k v pruned

  -- for _, k := range unwantedKeys { pruned[k] = c.cache[k]; delete(c.cache, k) }
  prune : List String → GoMap String V → GoMap String V → GoMap String V × GoMap String V
  unfolding move
  prune [] cache pruned = (cache, pruned)
  prune (k ∷ ks) cache pruned = prune ks (delete k cache) (move k (lookup k cache) pruned)

-- `cache_key` is the method of the CacheKeyer interface.
module _ {K V : Type 0} (cache_key : K → String) where
  -- Get
  unfoldable pub get : Cache V → K → Option V
  get c key = lookup (cache_key key) c.entries

  -- Set
  unfoldable pub set : Cache V → K → V → Cache V
  set c key value = record { entries = insert (cache_key key) value c.entries }

  -- Delete
  unfoldable pub remove : Cache V → K → Cache V
  remove c key = record { entries = delete (cache_key key) c.entries }

  -- KeepOnly, with the pruned entries as its result.
  unfoldable pub keep_only : Cache V → List K → Cache V × GoMap String V
  unfolding mark unwanted prune
  keep_only c ks =
      let seen = mark [] (map cache_key ks) in
      let unwanted_keys = unwanted seen (keys c.entries) in
      let (cache, pruned) = prune unwanted_keys c.entries [] in (record { entries = cache }, pruned)
