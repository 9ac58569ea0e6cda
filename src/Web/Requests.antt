-- ===== src/Web/Requests.antt =====
-- do_server_request of webserver/server_thread.c against its specification, where no other thread runs
-- meanwhile.
use web_server_and_user_leve.Prelude.{
  ℕ, ◌≡◌, refl, sym, ap, ◌∙◌, subst, Bool, true, Option, none, some, List, [], ◌∷◌, ◌++◌, count,
  erase, if◌then◌else◌, inl, inr, Bool-cases, update, updated, ltb, ◌^◌, length,
}
use web_server_and_user_leve.Web.State.{
  Name, File, Store, same, Outcome, undefined, pure, and_then, modify, ◌>>◌, eqb_name,
}
use web_server_and_user_leve.Web.Lists.{find_match}
use web_server_and_user_leve.Web.Matches.{eqb_name_eq}
use web_server_and_user_leve.Web.Consistent.{name_of, IsConsistent}
use web_server_and_user_leve.Web.Refine.{insert_spec}
use web_server_and_user_leve.Web.Request.{
  Handle, OnDisk, missing, unreadable, readable, Reply, failure, file_of, set_file, find_file,
  request_destroy,
}
use web_server_and_user_leve.Web.Handler.{look_up, after_look_up}
use web_server_and_user_leve.Web.Unrelated.{with_files-IsConsistent, update-other, find_match-cong}
use web_server_and_user_leve.Web.Handler.{do_server_request, after_init, file_data_init}
use web_server_and_user_leve.Web.Request.{request_init, parse_uri, equal_case, get_method}
use web_server_and_user_leve.Web.Unrelated.{update-update}
use web_server_and_user_leve.Web.Serve.{insert_spec-same}
use web_server_and_user_leve.Web.Answers.{
  Answered, served, served-cached, served-failed, served-huge, served-read,
}
use web_server_and_user_leve.Web.Matches.{find_match-cases}

-- The specification: the file and the list that it leaves, or `none` for a failure.
abbrev read_spec : Store → ℕ → Name → OnDisk → Option (File × List ℕ)
read_spec s p name missing = none
read_spec s p name unreadable = none
read_spec s p name (readable content) =
    if ltb (length content) (2 ^ 31)
    then some (file_of name content, (insert_spec (set_file p (file_of name content) s) p).1)
    else none

abbrev found_spec : (Name → OnDisk) → Store → ℕ → Name → Option ℕ → Option (File × List ℕ)
found_spec disk s p name (some q) = some (s.files q, erase q s.lru ++ q ∷ [])
found_spec disk s p name none = read_spec s p name (find_file disk name)

unfoldable pub answer_spec : (Name → OnDisk) → Store → ℕ → Name → Option (File × List ℕ)
answer_spec disk s p name = found_spec disk s p name (find_match (same s name) s.lru)

-- The call answers with the file of the specification; where that has none, it is undefined.
unfoldable pub Answers : Outcome (List Reply) → Option (File × List ℕ) → Type 0
Answers result none = result ≡ undefined
Answers result (some (file, l)) = Answered result file l

module _ (disk : Name → OnDisk) (fd p signal : ℕ) (s : Store) (ok : IsConsistent s)
    (absent : count p s.lru ≡ 0) (idle : s.inflight ≡ []) where
  module _ (live : s.live p ≡ true) where
    abbrev answer : Outcome (List Reply)
    answer = served disk fd p signal s ok live absent idle

    read-Answers :
        (d : OnDisk)
        → find_match (same s (name_of s p)) s.lru ≡ none
        → find_file disk (name_of s p) ≡ d
        → Answers answer (read_spec s p (name_of s p) d)
    unfolding Answers
    read-Answers missing new e =
        served-failed disk fd p signal s ok live absent idle missing (failure 404) new e λ t. refl
    read-Answers unreadable new e =
        served-failed disk fd p signal s ok live absent idle unreadable (failure 403) new e
          λ t. refl
    read-Answers (readable content) new e = elim (Bool-cases (ltb (length content) (2 ^ 31))) [
      | inl small ↦
          subst
            (λ b. Answers answer (
              if b
              then some (
                file_of (name_of s p) content,
                (insert_spec (set_file p (file_of (name_of s p) content) s) p).1,
              )
              else none))
            (sym small) (served-read disk fd p signal s ok live absent idle content new e small)
      | inr huge ↦
          subst
            (λ b. Answers answer (
              if b
              then some (
                file_of (name_of s p) content,
                (insert_spec (set_file p (file_of (name_of s p) content) s) p).1,
              )
              else none))
            (sym huge) (served-huge disk fd p signal s ok live absent idle content new e huge)
    ]

    served-Answers : Answers answer (answer_spec disk s p (name_of s p))
    unfolding answer_spec Answers
    served-Answers = elim (find_match-cases (same s (name_of s p)) s.lru) [
      | inl (q, e, m, is) ↦
          subst (λ o. Answers answer (found_spec disk s p (name_of s p) o)) (sym e)
            (served-cached disk fd p signal s ok live absent idle q e m
              (eqb_name_eq (name_of s q) (name_of s p) is))
      | inr (e, new) ↦
          subst (λ o. Answers answer (found_spec disk s p (name_of s p) o)) (sym e)
            (read-Answers (find_file disk (name_of s p)) e refl)
    ]

-- The store with the allocated file, when its name is known.
abbrev pub opened : ℕ → Name → Store → Store
opened p name s = record s {
  files = update s.files p (file_of name []);
  live = update s.live p true;
}

module _ (disk : Name → OnDisk) (fd p signal : ℕ) (s : Store) (ok : IsConsistent s)
    (absent : count p s.lru ≡ 0) (idle : s.inflight ≡ []) where
  opened-IsConsistent : (name : Name) → IsConsistent (opened p name s)
  opened-IsConsistent name =
      with_files-IsConsistent s (update s.files p (file_of name [])) (update s.live p true)
        s.inflight ok (update-other s.files p (file_of name []) s.lru absent)
        (update-other s.live p true s.lru absent)

  -- request_init with the method GET.
  request_init-returned :
      (method uri : Name)
      → equal_case method get_method ≡ true
      → do_server_request disk true fd p signal method uri s
        ≡ served disk fd p signal
            (opened p (parse_uri uri) s)
            (opened-IsConsistent (parse_uri uri))
            (updated s.live p true)
            absent
            idle
  unfolding do_server_request request_init
  request_init-returned method uri get =
      ap
        (λ b.
          and_then
            ((if b
                then modify (set_file p (file_of (parse_uri uri) [])) >> pure (some rq, [])
                else request_destroy (some rq) >> pure (none, failure 501 ∷ []))
              started)
            (after_init disk true p signal))
        get
      ∙ ap (λ f. served_from (update f p (file_of (parse_uri uri) [])))
          (update-update s.files p (file_of [] []) (file_of [] []))
      ∙ ap served_from (update-update s.files p (file_of [] []) (file_of (parse_uri uri) []))
    where
      rq : Handle
      rq = record { fd = fd; file = p }

      started : Store
      started = set_file p (file_of [] []) (file_data_init p s)

      served_from : (ℕ → File) → Outcome (List Reply)
      served_from f =
          and_then (look_up p (record s { files = f; live = update s.live p true }))
            (after_look_up disk rq signal)

  -- The specification does not depend on the file at `p`, which is not cached.
  answer_spec-opened :
      (name : Name) → answer_spec disk (opened p name s) p name ≡ answer_spec disk s p name
  unfolding answer_spec
  answer_spec-opened name =
      ap (found_spec disk (opened p name s) p name) same_found
      ∙ elim (find_match-cases (same s name) s.lru) [
        | inl (q, e, m, is) ↦
            ap (found_spec disk (opened p name s) p name) e
            ∙ ap (λ (f : File). some (f, erase q s.lru ++ q ∷ []))
                (update-other s.files p (file_of name []) s.lru absent q m)
            ∙ sym (ap (found_spec disk s p name) e)
        | inr (e, new) ↦
            ap (found_spec disk (opened p name s) p name) e
            ∙ same_read (find_file disk name)
            ∙ sym (ap (found_spec disk s p name) e)
      ]
    where
      same_found : find_match (same (opened p name s) name) s.lru ≡ find_match (same s name) s.lru
      same_found = find_match-cong (same (opened p name s) name) (same s name) s.lru λ q m.
          ap (λ (f : File). eqb_name f.file_name name)
            (update-other s.files p (file_of name []) s.lru absent q m)

      same_read : (d : OnDisk) → read_spec (opened p name s) p name d ≡ read_spec s p name d
      same_read missing = refl
      same_read unreadable = refl
      same_read (readable content) =
          ap
            (λ (r : Bool × List ℕ).
              if ltb (length content) (2 ^ 31) then some (file_of name content, r.1) else none)
            (insert_spec-same (set_file p (file_of name content) s)
              (set_file p (file_of name content) (opened p name s)) p
              (update-update s.files p (file_of name []) (file_of name content)) refl refl)

  -- do_server_request with the method GET, a consistent cache and no file being sent, `p` being a file that
  -- is not cached and no other thread running meanwhile: it sends the cached file of the requested name and
  -- makes it the most recently used; if there is none, it reads the file, inserts it as specified and sends
  -- it; the cache stays consistent. If that file cannot be read, it uses the request after freeing it, and if
  -- it has 2^31 bytes or more, its size overflows.
  pub do_server_request-Answers :
      (method uri : Name)
      → equal_case method get_method ≡ true
      → Answers
          (do_server_request disk true fd p signal method uri s)
          (answer_spec disk s p (parse_uri uri))
  do_server_request-Answers method uri get =
      let name : Name = parse_uri uri in
      let s1 : Store = opened p name s in
      let named : name_of s1 p ≡ name =
        ap (λ (f : File). f.file_name) (updated s.files p (file_of name [])) in
      subst (λ r. Answers r (answer_spec disk s p name))
        (sym (request_init-returned method uri get))
        (subst (Answers _) (ap (answer_spec disk s1 p) named ∙ answer_spec-opened name) (
          served-Answers disk fd p signal s1 (opened-IsConsistent name) absent idle
            (updated s.live p true)))
