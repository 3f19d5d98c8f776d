-- ===== src/Access/Jwks/Fetches.antt =====
-- How often a key is fetched for.
use horus_harness.Prelude.{
  ◌+◌, ◌≤◌, String, false, Option, ◌≡◌, arith, Result, ok, err, is_some, Bool-cases, inl, inr,
}
use horus_harness.Prelude.{ok-injective, sym}
use horus_harness.Prelude.Dict
use horus_harness.Prelude.Dict.{Dict}
use horus_harness.Prelude.Integers.{ℤ}
use horus_harness.Access.{Codec}
use horus_harness.Access.Jwks.{
  Key, JwksCache, Escaped, Server, Fetched, Found, refresh, refreshed, looked_up, or_refetch,
  get_key, is_stale,
}

-- What a look for a key leaves: at most two fetches, a key only as it is in the cache, and none only
-- after a fetch.
abbrev pub IsBounded : String → JwksCache → Found → Type 0
IsBounded kid before (result, after) =
    (after.fetches ≤ before.fetches + 2)
    × (before.fetches ≤ after.fetches)
    × ((key : Option Key)
        → result ≡ ok key
        → (key ≡ Dict.get kid after.keys)
          × (is_some key ≡ false → before.fetches + 1 ≤ after.fetches))

refreshed_fetches :
    (server : Server) (cache : JwksCache) (r : Result Escaped (Dict Key))
    → (refreshed server cache r).1.fetches ≡ cache.fetches + 1
refreshed_fetches server cache (ok keys) = omega arith
refreshed_fetches server cache (err e) = omega arith

refresh_fetches :
    (codec : Codec) (server : Server) (cache : JwksCache)
    → (refresh codec server cache).1.fetches ≡ cache.fetches + 1
unfolding refresh
refresh_fetches codec server cache = refreshed_fetches server cache _

looked_up-IsBounded :
    (kid : String) (before : JwksCache) (f : Fetched)
    → before.fetches + 1 ≤ f.1.fetches
    → f.1.fetches ≤ before.fetches + 2
    → IsBounded kid before (looked_up kid f)
looked_up-IsBounded kid before (ok u, cache) low high =
    (high, omega arith, λ key e. (sym (ok-injective e), λ h. low))
looked_up-IsBounded kid before (err e, cache) low high = (high, omega arith, λ key h. absurd (cc h))

or_refetch-IsBounded :
    (codec : Codec) (server : Server) (kid : String) (before : JwksCache) (f : Fetched)
    → before.fetches ≤ f.1.fetches
    → f.1.fetches ≤ before.fetches + 1
    → IsBounded kid before (or_refetch codec server kid f)
or_refetch-IsBounded codec server kid before (err e, cache) low high =
    (omega arith, low, λ key h. absurd (cc h))
or_refetch-IsBounded codec server kid before (ok u, cache) low high =
    elim (Bool-cases (is_some (Dict.get kid cache.keys))) [
      | inl e ↦ rw e (
        omega arith,
        low,
        λ key h. (sym (ok-injective h), λ none_found. absurd (cc (e, none_found, ok-injective h))),
      )
      | inr e ↦ rw e (
          looked_up-IsBounded kid before (refresh codec server cache)
            (omega (arith, refresh_fetches codec server cache))
            (omega (arith, refresh_fetches codec server cache)))
    ]

-- A look for a key fetches at most twice. The key that it returns is the one of that name in the cache
-- that it leaves, and it says that there is none only after a fetch.
pub get_key-IsBounded :
    (codec : Codec) (server : Server) (kid : String) (now : ℤ) (cache : JwksCache)
    → IsBounded kid cache (get_key codec server kid now cache)
unfolding get_key
get_key-IsBounded codec server kid now cache = elim (Bool-cases (is_stale cache now)) [
  | inl e ↦ rw e (
      or_refetch-IsBounded codec server kid cache (refresh codec server cache)
        (omega (arith, refresh_fetches codec server cache))
        (omega (arith, refresh_fetches codec server cache)))
  | inr e ↦
      rw e (or_refetch-IsBounded codec server kid cache (ok tt, cache) (omega arith) (omega arith))
]
