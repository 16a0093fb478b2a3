-- ===== src/Images/Cache/Laws.antt =====
-- What the cache's operations do, seen through `get`.
use application_controller.Common.{
  String, ◌≡◌, refl, Bool, true, false, ◌||◌, Option, none, some, List, [], ◌∷◌, GoMap, lookup,
  insert, delete, keys, elem, map, string_eq, ◌==◌, if◌then◌else◌, arith, lookup-insert,
  lookup-delete, eq_iff, or_else,
}
use application_controller.Images.Cache.{Cache, keep_only, flag, mark, unwanted, prune, move}

-- After the marking loop a key is seen exactly when it was, or stands in the list.
flag-mark :
    (ks : List String) (seen : GoMap String Bool) (j : String)
    → flag (lookup j (mark seen ks)) ≡ (flag (lookup j seen) || elem j ks)
unfolding mark elem flag
flag-mark [] seen j = ground arith
flag-mark (k ∷ ks) seen j =
    ground (arith, flag-mark ks (insert k true seen) j, lookup-insert k j true seen, eq_iff k j)

elem-unwanted :
    (seen : GoMap String Bool) (ks : List String) (j : String)
    → elem j (unwanted seen ks) ≡ (if flag (lookup j seen) then false else elem j ks)
unfolding elem unwanted
elem-unwanted seen [] j = ground arith
elem-unwanted seen (k ∷ ks) j = ground (arith, elem-unwanted seen ks j, eq_iff k j)

module _ {V : Type 0} where
  lookup-prune :
      (ks : List String) (cache pruned : GoMap String V) (j : String)
      → lookup j (prune ks cache pruned).0 ≡ (if elem j ks then none else lookup j cache)
  unfolding prune elem
  lookup-prune [] cache pruned j = refl
  lookup-prune (k ∷ ks) cache pruned j = ground (
    arith,
    lookup-prune ks (delete k cache) (move k (lookup k cache) pruned) j,
    lookup-delete k j cache,
  )

  lookup-move :
      (k j : String) (o : Option V) (pruned : GoMap String V)
      → lookup j (move k o pruned)
        ≡ (if k == j then or_else o (lookup j pruned) else lookup j pruned)
  unfolding move
  lookup-move k j none pruned = ground arith
  lookup-move k j (some v) pruned = lookup-insert k j v pruned

  lookup-pruned :
      (ks : List String) (cache pruned : GoMap String V) (j : String)
      → lookup j (prune ks cache pruned).1
        ≡ (if elem j ks then or_else (lookup j cache) (lookup j pruned) else lookup j pruned)
  unfolding prune elem
  lookup-pruned [] cache pruned j = refl
  lookup-pruned (k ∷ ks) cache pruned j = ground (
    arith,
    lookup-pruned ks (delete k cache) (move k (lookup k cache) pruned) j,
    lookup-move k j (lookup k cache) pruned,
    lookup-delete k j cache,
    eq_iff k j,
  )

  -- A key that no entry has is not found.
  lookup_absent : (m : GoMap String V) (j : String) → elem j (keys m) ≡ false → lookup j m ≡ none
  unfolding lookup elem
  lookup_absent [] j h = refl
  lookup_absent ((k, v) ∷ m) j h = ground (arith, lookup_absent m j)

module _ {K V : Type 0} (cache_key : K → String) (c : Cache V) (ks : List K) where
  -- For every text j and list ks of keys: after KeepOnly(ks) the cache holds under j what it held
  -- before if j is the cache key of a member of ks, and nothing otherwise; the returned map holds
  -- under j what the cache held if j is the cache key of no member of ks, and nothing otherwise.
  pub lookup-keep_only :
      (j : String)
      → let kept = elem j (map cache_key ks) in
        let before = lookup j c.entries in
        (lookup j (keep_only cache_key c ks).0.entries ≡ (if kept then before else none))
        × (lookup j (keep_only cache_key c ks).1 ≡ (if kept then none else before))
  unfolding keep_only elem lookup
  lookup-keep_only j = (
    ground (arith, marks, wanted, lookup-prune dropped c.entries [] j, absent),
    ground (arith, marks, wanted, lookup-pruned dropped c.entries [] j, absent),
  )
    where
      dropped : List String
      dropped = unwanted (mark [] (map cache_key ks)) (keys c.entries)

      marks : flag (lookup j (mark [] (map cache_key ks))) ≡ elem j (map cache_key ks)
      marks = flag-mark (map cache_key ks) [] j

      wanted : elem j dropped ≡ (
          if flag (lookup j (mark [] (map cache_key ks))) then false else elem j (keys c.entries))
      wanted = elem-unwanted (mark [] (map cache_key ks)) (keys c.entries) j

      absent : elem j (keys c.entries) ≡ false → lookup j c.entries ≡ none
      absent = lookup_absent c.entries j
