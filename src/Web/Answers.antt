-- ===== src/Web/Answers.antt =====
-- What do_server_request of webserver/server_thread.c answers, where no other thread runs meanwhile: with
-- `nr_threads` of 0, the main thread calls it alone.
use web_server_and_user_leve.Prelude.{
  ℕ, ◌≤◌, ◌≡◌, refl, sym, ap, ◌∙◌, subst, Bool, true, false, Option, none, some, List, [], ◌∷◌,
  ◌++◌, arith, count, count-append, count-erase, erase, if◌then◌else◌, update, updated, ltb, ◌^◌,
  length,
}
use web_server_and_user_leve.Web.State.{
  Name, File, Store, same, Outcome, returned, undefined, M, pure, and_then, modify, ◌>>◌, eqb_name,
}
use web_server_and_user_leve.Web.Lists.{find_match}
use web_server_and_user_leve.Web.Cache.{cache_lookup, free_file}
use web_server_and_user_leve.Web.Matches.{==_self_one}
use web_server_and_user_leve.Web.Consistent.{name_of, IsConsistent}
use web_server_and_user_leve.Web.Reads.{read_file-live}
use web_server_and_user_leve.Web.Refine.{Implements, insert_spec}
use web_server_and_user_leve.Web.Lookup.{move_last, cache_lookup-Implements}
use web_server_and_user_leve.Web.Request.{
  OnDisk, readable, Reply, response_of, file_of, set_file, store_file, find_file, request_readfile,
  request_destroy,
}
use web_server_and_user_leve.Web.Handler.{look_up, if_cached, send, after_look_up, after_read}
use web_server_and_user_leve.Web.Unrelated.{with_files-IsConsistent, update-other, find_match-cong}
use web_server_and_user_leve.Web.Serve.{
  send-returned, use_cached-returned, Inserted, insert_read-Inserted, insert_spec-same,
}

-- The reply is the file, the list is `l`, and no file is left among those being sent.
pub record Answered (result : Outcome (List Reply)) (file : File) (l : List ℕ) : Type 0 where
  pub after : Store
  pub runs : result ≡ returned (response_of file ∷ []) after
  pub lru : after.lru ≡ l
  pub ok : IsConsistent after
  pub idle : after.inflight ≡ []

-- A cached file is found and sent.
module _ (disk : Name → OnDisk) (fd p signal : ℕ) (s : Store) (ok : IsConsistent s)
    (live : s.live p ≡ true) (absent : count p s.lru ≡ 0) (idle : s.inflight ≡ []) where
  abbrev pub served : Outcome (List Reply)
  served = and_then (look_up p s) (after_look_up disk (record { fd = fd; file = p }) signal)

  abbrev continued : Option ℕ → M (List Reply)
  continued = after_look_up disk (record { fd = fd; file = p }) signal

  looked_up :
      (o : Option ℕ)
      → find_match (same s (name_of s p)) s.lru ≡ o
      → Implements s (cache_lookup p s) (move_last s.lru o)
  looked_up o e =
      subst (λ o'. Implements s (cache_lookup p s) (move_last s.lru o')) e
        (cache_lookup-Implements p s ok live)

  pub served-cached :
      (q : ℕ)
      → find_match (same s (name_of s p)) s.lru ≡ some q
      → 1 ≤ count q s.lru
      → name_of s q ≡ name_of s p
      → Answered served (s.files q) (erase q s.lru ++ q ∷ [])
  unfolding look_up
  served-cached q found m e =
      let i : Implements s (cache_lookup p s) (true, erase q s.lru ++ q ∷ []) =
        looked_up (some q) found in
      let s2 : Store = i.after in
      let member : 1 ≤ count q s2.lru =
        omega (arith, ap (count q) i.lru, count-append q (erase q s.lru) (q ∷ []), ==_self_one q) in
      let gone : count p s2.lru ≡ 0 = not_moved p q s2.lru absent m i.lru in
      let ok3 : IsConsistent (free_file p s2) =
        with_files-IsConsistent s2 s2.files (update s2.live p false) s2.inflight i.ok (λ r n. refl)
          (update-other s2.live p false s2.lru gone) in
      record {
        after = record (free_file p s2) { inflight = [] };
        runs =
            ap (λ o. and_then (and_then o (if_cached p)) continued) i.runs
            ∙ ap (λ o. and_then (and_then o λ r. pure (some r)) continued)
                (use_cached-returned p q s2 i.ok (i.kept.others p absent ∙ live) member (
                  ap (λ f. (f q).file_name) i.kept.files
                  ∙ e
                  ∙ sym (ap (λ f. (f p).file_name) i.kept.files)))
            ∙ send-returned fd q signal (free_file p s2) (ok3.alive q member)
                (i.kept.inflight ∙ idle)
            ∙ ap
                (λ (f : ℕ → File).
                  returned (response_of (f q) ∷ []) (record (free_file p s2) { inflight = [] }))
                i.kept.files;
        lru = i.lru;
        ok =
            with_files-IsConsistent (free_file p s2) s2.files (update s2.live p false) [] ok3
              (λ r n. refl) (λ r n. refl);
        idle = refl;
      }
    where
      not_moved :
          (p q : ℕ) (l : List ℕ)
          → count p s.lru ≡ 0
          → 1 ≤ count q s.lru
          → l ≡ erase q s.lru ++ q ∷ []
          → count p l ≡ 0
      not_moved p q l absent m e = omega (
        arith,
        ap (count p) e,
        count-append p (erase q s.lru) (q ∷ []),
        count-erase p q s.lru m,
        absent,
      )

  -- The read of the file, behind a look-up that has found nothing.
  read_result :
      (s2 : Store) (d : OnDisk)
      → s2.files ≡ s.files
      → s2.live p ≡ true
      → find_file disk (name_of s p) ≡ d
      → request_readfile disk (record { fd = fd; file = p }) s2 ≡ store_file p (name_of s p) d s2
  unfolding request_readfile
  read_result s2 d files live2 e =
      read_file-live p _ s2 live2
      ∙ ap (λ (f : ℕ → File). store_file p (f p).file_name (find_file disk (f p).file_name) s2)
          files
      ∙ ap (λ d. store_file p (name_of s p) d s2) e

  -- A failed read ends in the second call of request_destroy.
  pub served-failed :
      (d : OnDisk) (reply : Reply)
      → find_match (same s (name_of s p)) s.lru ≡ none
      → find_file disk (name_of s p) ≡ d
      → ((t : Store) → store_file p (name_of s p) d t ≡ returned (some reply) t)
      → served ≡ undefined
  unfolding look_up request_destroy
  served-failed d reply new found fails =
      let i : Implements s (cache_lookup p s) (false, s.lru) = looked_up none new in
      ap (λ o. and_then (and_then o (if_cached p)) continued) i.runs
      ∙ ap (λ o. and_then o (after_read (record { fd = fd; file = p }) signal))
          (read_result i.after d i.kept.files (i.kept.others p absent ∙ live) found ∙ fails i.after)

  -- So does the process with a file that is too large for an `int`.
  pub served-huge :
      (content : List ℕ)
      → find_match (same s (name_of s p)) s.lru ≡ none
      → find_file disk (name_of s p) ≡ readable content
      → ltb (length content) (2 ^ 31) ≡ false
      → served ≡ undefined
  unfolding look_up
  served-huge content new found huge =
      let i : Implements s (cache_lookup p s) (false, s.lru) = looked_up none new in
      ap (λ o. and_then (and_then o (if_cached p)) continued) i.runs
      ∙ ap (λ o. and_then o (after_read (record { fd = fd; file = p }) signal))
          (read_result i.after (readable content) i.kept.files (i.kept.others p absent ∙ live) found
            ∙ ap
                (λ b.
                  (if b
                      then modify (set_file p (file_of (name_of s p) content)) >> pure none
                      else (λ s. undefined))
                    i.after)
                huge)

  -- A file that has been read is inserted and sent.
  pub served-read :
      (content : List ℕ)
      → find_match (same s (name_of s p)) s.lru ≡ none
      → find_file disk (name_of s p) ≡ readable content
      → ltb (length content) (2 ^ 31) ≡ true
      → Answered served
          (file_of (name_of s p) content)
          (insert_spec (set_file p (file_of (name_of s p) content) s) p).1
  unfolding look_up
  served-read content new found small =
      let i : Implements s (cache_lookup p s) (false, s.lru) = looked_up none new in
      let file : File = file_of (name_of s p) content in
      let s2 : Store = i.after in
      let s3 : Store = set_file p file s2 in
      let absent2 : count p s2.lru ≡ 0 = ap (count p) i.lru ∙ absent in
      let named : name_of s3 p ≡ name_of s p =
        ap (λ (f : File). f.file_name) (updated s2.files p file) in
      let others : (q : ℕ) → 1 ≤ count q s2.lru → s3.files q ≡ s2.files q =
        update-other s2.files p file s2.lru absent2 in
      let new3 : find_match (same s3 (name_of s3 p)) s2.lru ≡ none =
        find_match-cong (same s3 (name_of s3 p)) (same s (name_of s p)) s2.lru (λ q m.
          ap (λ (f : File). eqb_name f.file_name (name_of s3 p))
            (others q m ∙ ap (λ f. f q) i.kept.files)
          ∙ ap (eqb_name (name_of s q)) named)
        ∙ ap (find_match (same s (name_of s p))) i.lru
        ∙ new in
      let j : Inserted p s3 =
        insert_read-Inserted p s3
          (with_files-IsConsistent s2 s3.files s2.live s2.inflight i.ok others λ r n. refl)
          (i.kept.others p absent ∙ live) absent2 (i.kept.inflight ∙ idle) new3 in
      let s5 : Store = j.after in
      record {
        after = record s5 { inflight = [] };
        runs =
            ap (λ o. and_then (and_then o (if_cached p)) continued) i.runs
            ∙ ap (λ o. and_then o read_next)
                (read_result s2 (readable content) i.kept.files (i.kept.others p absent ∙ live)
                    found
                  ∙ ap
                      (λ b.
                        (if b
                            then modify (set_file p (file_of (name_of s p) content)) >> pure none
                            else (λ s. undefined))
                          s2)
                      small)
            ∙ ap (λ o. and_then o λ q. send (record { fd = fd; file = q }) signal) j.runs
            ∙ send-returned fd p signal s5 j.live j.idle
            ∙ ap (λ (f : File). returned (response_of f ∷ []) (record s5 { inflight = [] }))
                (ap (λ (f : ℕ → File). f p) j.files ∙ updated s2.files p file);
        lru =
            j.lru
            ∙ ap (λ (r : Bool × List ℕ). r.1)
                (insert_spec-same (set_file p file s) s3 p (ap (λ f. update f p file) i.kept.files)
                  i.kept.max i.lru);
        ok = with_files-IsConsistent s5 s5.files s5.live [] j.ok (λ r n. refl) λ r n. refl;
        idle = refl;
      }
    where
      read_next : Option Reply → M (List Reply)
      read_next = after_read (record { fd = fd; file = p }) signal
