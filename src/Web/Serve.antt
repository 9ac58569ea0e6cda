-- ===== src/Web/Serve.antt =====
-- The sections of do_server_request of webserver/server_thread.c, one after the other.
use web_server_and_user_leve.Prelude.{
  ℕ, ◌≤◌, ◌≡◌, sym, ap, ◌∙◌, subst, Bool, true, false, none, some, List, [], ◌∷◌, ◌++◌, arith,
  count, if◌then◌else◌, inl, inr, eqb_eq, eqb_ne, Bool-cases, ltb, map, ◌==◌,
}
use web_server_and_user_leve.Web.State.{
  File, InFlight, Store, same, all_live, returned, M, pure, ◌>>=◌, and_then, eqb_name,
}
use web_server_and_user_leve.Web.Lists.{
  find_match, add_to_queue, remove_from_queue, keep_entry, is_in_flight,
}
use web_server_and_user_leve.Web.Cache.{cache_lookup, cache_insert, free_file}
use web_server_and_user_leve.Web.Matches.{one_at_other, eqb_name_self, eqb_name_eq}
use web_server_and_user_leve.Web.Consistent.{name_of, IsConsistent, IsIdle, all_live_of}
use web_server_and_user_leve.Web.Reads.{read_file-live, require-true}
use web_server_and_user_leve.Web.Refine.{Implements, insert_new, insert_spec}
use web_server_and_user_leve.Web.Lookup.{move_last, cache_lookup-Implements}
use web_server_and_user_leve.Web.Policy.{cache_insert-Implements}
use web_server_and_user_leve.Web.Request.{
  Handle, Reply, response_of, request_sendfile, request_destroy,
}
use web_server_and_user_leve.Web.Handler.{
  replace_data, use_cached, insert_read, unless_cached, announce, signalled, withdraw, send,
}
use web_server_and_user_leve.Web.Unrelated.{find_match-only}

abbrev node : ℕ → ℕ → InFlight
node q signal = record { filename = q; signal = signal }

module _ (fd q signal : ℕ) (s : Store) (live : s.live q ≡ true) where
  abbrev rq : Handle
  rq = record { fd = fd; file = q }

  abbrev sending : Store
  sending = record s { inflight = node q signal ∷ [] }

  pub announce-returned : s.inflight ≡ [] → announce q signal s ≡ returned tt sending
  unfolding announce add_to_queue
  announce-returned idle =
      read_file-live q _ s live
      ∙ ap (λ l. returned tt (record s { inflight = l ++ node q signal ∷ [] })) idle

  withdraw-returned : withdraw q sending ≡ returned signal (record s { inflight = [] })
  unfolding withdraw remove_from_queue
  withdraw-returned =
      read_file-live q _ sending live
      ∙ require-true _ _ sending (all_live_of s.live (q ∷ []) only)
      ∙ ap
          (λ b.
            signalled
              (if b then (some (node q signal), []) else keep_entry (node q signal) (none, []))
              sending)
          (eqb_name_self (name_of s q))
    where
      only : (r : ℕ) → 1 ≤ count r (q ∷ []) → s.live r ≡ true
      only r m = elim (Bool-cases (r == q)) [
        | inl e ↦ ap s.live (eqb_eq r q e) ∙ live
        | inr e ↦ absurd (omega (arith, one_at_other r q λ g. eqb_ne r q e (sym g)))
      ]

  -- From the announcement on, nobody else sending.
  pub send-returned :
      s.inflight ≡ []
      → send rq signal s ≡ returned (response_of (s.files q) ∷ []) (record s { inflight = [] })
  unfolding send request_destroy request_sendfile
  send-returned idle =
      ap (λ o. and_then o λ _. request_sendfile rq >>= after_sending) (announce-returned idle)
      ∙ ap (λ o. and_then o after_sending) (read_file-live q _ sending live)
      ∙ ap (λ o. and_then o λ cv. pure (response_of (s.files q) ∷ [])) withdraw-returned
    where
      after_sending : Reply → M (List Reply)
      after_sending reply = do cv ← withdraw q; freed ← request_destroy (some rq); pure (reply ∷ [])

pub use_cached-returned :
    (p q : ℕ) (s : Store)
    → IsConsistent s
    → s.live p ≡ true
    → 1 ≤ count q s.lru
    → name_of s q ≡ name_of s p
    → use_cached p s ≡ returned q (free_file p s)
unfolding use_cached
use_cached-returned p q s ok live m e =
    read_file-live p _ s live
    ∙ require-true _ _ s (all_live_of s.live s.lru ok.alive)
    ∙ ap (λ o. replace_data p o s)
        (find_match-only (same s (name_of s p)) q s.lru m
          (ap (λ n. eqb_name n (name_of s p)) e ∙ eqb_name_self (name_of s p))
          (λ r n h. ok.names q r m n (eqb_name_eq (name_of s r) (name_of s p) h ∙ sym e)))

-- With an empty list of files being sent, nothing waits.
IsIdle-of : (s : Store) → s.inflight ≡ [] → IsIdle s
unfolding is_in_flight
IsIdle-of s e = record {
  sent_live = ap (λ l. all_live s.live (map (λ (e : InFlight). e.filename) l)) e;
  unsent = λ p m. ap (is_in_flight (same s (name_of s p))) e;
}

pub insert_spec-same :
    (s s' : Store) (p : ℕ)
    → s'.files ≡ s.files
    → s'.cache.max_size ≡ s.cache.max_size
    → s'.lru ≡ s.lru
    → insert_spec s' p ≡ insert_spec s p
unfolding insert_spec
insert_spec-same s s' p files max lru =
    ap (λ f. of_parts f s'.cache.max_size s'.lru) files
    ∙ ap (λ m. of_parts s.files m s'.lru) max
    ∙ ap (of_parts s.files s.cache.max_size) lru
  where
    of_parts : (ℕ → File) → ℕ → List ℕ → Bool × List ℕ
    of_parts f m l =
        if ltb m (f p).file_size
        then (false, l)
        else insert_new f m p l (find_match (λ q. eqb_name (f q).file_name (f p).file_name) l)

-- The insertion of a file that has been read leaves it allocated.
pub record Inserted (p : ℕ) (s : Store) : Type 0 where
  pub after : Store
  pub runs : insert_read p s ≡ returned p after
  pub ok : IsConsistent after
  pub live : after.live p ≡ true
  pub idle : after.inflight ≡ []
  pub files : after.files ≡ s.files
  pub lru : after.lru ≡ (insert_spec s p).1

pub insert_read-Inserted :
    (p : ℕ) (s : Store)
    → IsConsistent s
    → s.live p ≡ true
    → count p s.lru ≡ 0
    → s.inflight ≡ []
    → find_match (same s (name_of s p)) s.lru ≡ none
    → Inserted p s
unfolding insert_read
insert_read-Inserted p s ok live absent idle new =
    let i : Implements s (cache_lookup p s) (false, s.lru) =
      subst (λ o. Implements s (cache_lookup p s) (move_last s.lru o)) new
        (cache_lookup-Implements p s ok live) in
    let s1 : Store = i.after in
    let live1 : s1.live p ≡ true = i.kept.others p absent ∙ live in
    let idle1 : s1.inflight ≡ [] = i.kept.inflight ∙ idle in
    let j : Implements s1 (cache_insert p s1) (insert_spec s1 p) =
      cache_insert-Implements p s1 i.ok (IsIdle-of s1 idle1) live1 in
    record {
      after = j.after;
      runs =
          ap (λ o. and_then o (unless_cached p)) i.runs ∙ ap (λ o. and_then o λ _. pure p) j.runs;
      ok = j.ok;
      live = j.kept.others p (ap (count p) i.lru ∙ absent) ∙ live1;
      idle = j.kept.inflight ∙ idle1;
      files = j.kept.files ∙ i.kept.files;
      lru = j.lru ∙ ap (λ r. r.1) (insert_spec-same s s1 p i.kept.files i.kept.max i.lru);
    }
