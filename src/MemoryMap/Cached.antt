-- ===== src/MemoryMap/Cached.antt =====
-- `oryx_mmap_cache_put` and `oryx_mmap_cache_get` of src/liboryxmap/oryxmap.c, over the store of the cache.
use oryx.Prelude.{ℕ, ◌≡◌, ◌||◌, not, not-eq-false, List, [], ◌==◌, arith}
use oryx.Errors.{
  Result, ok, err, integrity, ◌>>=◌, Ensures, Ensures-bind, Ensures-guard, Ensures-any,
}
use oryx.Wire.{same_bytes}
use oryx.Wire.Codec.{same_bytes-eq}
use oryx.Cache.Store.{Disk, Io, put_blob, get_blob, resolve}
use oryx.MemoryMap.Entries.{MemMap}
use oryx.MemoryMap.Format.{serialize, parse, logical_key, verify_identity}

unfoldable pub put_image : Io → Disk → List ℕ → Result (List ℕ) → Disk × Result (List ℕ)
put_image env disk key (err e) = (disk, err e)
put_image env disk key (ok bytes) = put_blob env disk bytes key

unfoldable pub cache_put : Io → Disk → MemMap → Disk × Result (List ℕ)
cache_put env disk m = put_image env disk (logical_key m) (serialize env.malloc m)

-- The map whose identity is asked for.
abbrev pub probe : List ℕ → ℕ → ℕ → ℕ → MemMap
probe module_hash analyzer_id analyzer_version isa_id = record {
  isa_id = isa_id;
  analyzer_id = analyzer_id;
  analyzer_version = analyzer_version;
  flags = 0;
  module_hash = module_hash;
  entries = [];
}

unfoldable pub cache_get : Io → Disk → List ℕ → ℕ → ℕ → ℕ → Result MemMap
cache_get env disk module_hash analyzer_id analyzer_version isa_id =
    resolve env disk (logical_key (probe module_hash analyzer_id analyzer_version isa_id))
    >>= λ addr. get_blob env disk addr >>= λ bytes. parse env.malloc bytes >>= λ m.
        verify_identity m module_hash analyzer_id analyzer_version isa_id >>= λ checked. ok m

-- The map was made of this module by this version of this analyzer for this machine.
pub record IsFor (module_hash : List ℕ) (analyzer_id analyzer_version isa_id : ℕ) (m : MemMap)
    : Type 0 where
  pub same_hash : m.module_hash ≡ module_hash
  pub same_analyzer : m.analyzer_id ≡ analyzer_id
  pub same_version : m.analyzer_version ≡ analyzer_version
  pub same_isa : m.isa_id ≡ isa_id

module _ (module_hash : List ℕ) (analyzer_id analyzer_version isa_id : ℕ) where
  verify_identity-IsFor :
      (m : MemMap)
      → Ensures
          (verify_identity m module_hash analyzer_id analyzer_version isa_id)
          (λ checked. IsFor module_hash analyzer_id analyzer_version isa_id m)
  unfolding verify_identity
  verify_identity-IsFor m =
      let Good : Unit {0} → Type 0 =
        λ checked. IsFor module_hash analyzer_id analyzer_version isa_id m in
      Ensures-guard Good (not (same_bytes m.module_hash module_hash)) integrity _ (λ same.
        Ensures-guard Good
          (not (m.analyzer_id == analyzer_id)
            || not (m.analyzer_version == analyzer_version)
            || not (m.isa_id == isa_id))
          integrity (ok tt)
          (λ ids.
            let hash = same_bytes-eq m.module_hash module_hash (not-eq-false _ same) in
            record {
              same_hash = hash;
              same_analyzer = ground arith;
              same_version = ground arith;
              same_isa = ground arith;
            }))

  -- A map that `cache_get` returns has the identity that was asked for, whatever the disk holds.
  pub cache_get-IsFor :
      (env : Io) (disk : Disk)
      → Ensures
          (cache_get env disk module_hash analyzer_id analyzer_version isa_id)
          (IsFor module_hash analyzer_id analyzer_version isa_id)
  unfolding cache_get
  cache_get-IsFor env disk =
      let Good = IsFor module_hash analyzer_id analyzer_version isa_id in
      Ensures-any Good (resolve env disk _) _ (λ addr.
        Ensures-any Good (get_blob env disk addr) _ (λ bytes.
          Ensures-any Good (parse env.malloc bytes) _ (λ m.
            Ensures-bind (λ checked. Good m) Good
              (verify_identity m module_hash analyzer_id analyzer_version isa_id) (λ checked. ok m)
              (verify_identity-IsFor m) (λ checked good. good))))
