-- ===== src/Web/Reads.antt =====
-- The reads of the operations of webserver/server_thread.c, where they succeed.
use web_server_and_user_leve.Prelude.{
  ℕ, ◌≤◌, ◌≡◌, ap, ◌∙◌, ◌==◌, ==_ne, Bool, true, none, some, List, arith, get_elem?, if◌then◌else◌,
  map,
}
use web_server_and_user_leve.Web.State.{
  Name, File, InFlight, Store, same, all_live, M, returned, waits, undefined, and_then,
}
use web_server_and_user_leve.Web.Lists.{is_in_flight}
use web_server_and_user_leve.Web.Cache.{
  slot, bucket_at, slot_of, await_sent, read_file, require, chain_or_fault, sent_or_waits,
}

module _ {B : Type 0} where
  -- The steps that read, one after the other.
  pub read_file-live :
      (p : ℕ) (f : File → M B) (s : Store)
      → s.live p ≡ true
      → and_then (read_file p s) f ≡ f (s.files p) s
  read_file-live p f s e = ap (λ b. and_then (if b then returned (s.files p) s else undefined) f) e

  pub require-true :
      (b : Bool) (f : Unit {0} → M B) (s : Store) → b ≡ true → and_then (require b s) f ≡ f tt s
  require-true b f s e = ap (λ b. and_then (if b then returned tt s else undefined) f) e

  pub slot_of-nonempty :
      (name : Name) (f : ℕ → M B) (s : Store)
      → 1 ≤ s.cache.array_size
      → and_then (slot_of name s) f ≡ f (slot s.cache.array_size name) s
  slot_of-nonempty name f s h =
      ap (λ b. and_then (if b then undefined else returned (slot s.cache.array_size name) s) f)
        (==_ne s.cache.array_size 0 (omega arith))

  pub bucket_at-some :
      (i : ℕ) (b : List ℕ) (f : List ℕ → M B) (s : Store)
      → get_elem? s.cache.mapping i ≡ some b
      → and_then (bucket_at s.cache.mapping i s) f ≡ f b s
  bucket_at-some i b f s e = ap (λ o. and_then (chain_or_fault o s) f) e

  pub await_sent-idle :
      (name : Name) (f : Unit {0} → M B) (s : Store)
      → all_live s.live (map (λ (e : InFlight). e.filename) s.inflight) ≡ true
      → is_in_flight (same s name) s.inflight ≡ none
      → and_then (await_sent name s) f ≡ f tt s
  await_sent-idle name f s l e =
      ap
        (λ b.
          and_then
            (if b then sent_or_waits (is_in_flight (same s name) s.inflight) s else undefined) f)
        l
      ∙ ap (λ o. and_then (sent_or_waits o s) f) e

  pub slot_of-empty :
      (name : Name) (f : ℕ → M B) (s : Store)
      → s.cache.array_size ≡ 0
      → and_then (slot_of name s) f ≡ undefined
  slot_of-empty name f s e =
      ap (λ b. and_then (if b then undefined else returned (slot s.cache.array_size name) s) f)
        (ap (λ n. n == 0) e)

  pub await_sent-waits :
      (name : Name) (f : Unit {0} → M B) (e : InFlight) (s : Store)
      → all_live s.live (map (λ (e : InFlight). e.filename) s.inflight) ≡ true
      → is_in_flight (same s name) s.inflight ≡ some e
      → and_then (await_sent name s) f ≡ waits e.signal
  await_sent-waits name f e s l sent =
      ap
        (λ b.
          and_then
            (if b then sent_or_waits (is_in_flight (same s name) s.inflight) s else undefined) f)
        l
      ∙ ap (λ o. and_then (sent_or_waits o s) f) sent
