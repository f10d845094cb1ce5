-- ===== src/Ttl/Tests.antt =====
-- ttl.rs at a concrete input: a value that expires.
use voodoo_store.Prelude.{[], ◌∷◌, arith}
use voodoo_store.Prelude.Int.{pos}
use voodoo_store.Platform.{Platform, length_platform}
use voodoo_store.Engine.Tests.{empty_store, empty_store-HasLog}
use voodoo_store.Ttl.{put_with_ttl}
use voodoo_store.Ttl.Put.{TtlPost, put_with_ttl-TtlPost}

instance abbrev platform : Platform
platform = length_platform

put_with_ttl-TtlPost_example :
    TtlPost
      (b'k' ∷ [])
      (1 ∷ [])
      (pos 100)
      empty_store
      (put_with_ttl (b'k' ∷ []) (1 ∷ []) (pos 100) empty_store).0
      (put_with_ttl (b'k' ∷ []) (1 ∷ []) (pos 100) empty_store).1
put_with_ttl-TtlPost_example =
    put_with_ttl-TtlPost (b'k' ∷ []) (1 ∷ []) (pos 100) empty_store (omega arith) empty_store-HasLog
