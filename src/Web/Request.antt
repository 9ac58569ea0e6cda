-- ===== src/Web/Request.antt =====
-- webserver/request.c: what is read from a client and from the disk, and the reply.
use web_server_and_user_leve.Prelude.{
  ℕ, ◌+◌, ◌-◌, ◌%◌, ◌^◌, ◌==◌, ltb, leb, Bool, true, false, ◌&&◌, Option, none, some, List, [], ◌∷◌,
  if◌then◌else◌, length, take, update,
}
use web_server_and_user_leve.Web.State.{
  Name, eqb_name, File, Store, undefined, M, pure, ◌>>=◌, ◌>>◌, modify,
}
use web_server_and_user_leve.Web.Cache.{read_file}

-- `struct request`: the descriptor of the client, and the file.
pub record Handle : Type 0 where
  pub fd : ℕ
  pub file : ℕ

-- What `stat` and the reads say of a name: no such file; not a regular file that its owner may read; or
-- the content.
pub data OnDisk : Type 0 where
  missing unreadable : OnDisk
  readable : List ℕ → OnDisk

pub data FileType : Type 0 where
  text_html image_gif image_jpeg text_plain : FileType

-- What is written to the client: the number of an error, or a file.
pub data Reply : Type 0 where
  failure : ℕ → Reply
  response : (content_type : FileType) (content_length csum : ℕ) (content : List ℕ) → Reply

-- strcasecmp
abbrev lower : ℕ → ℕ
lower c = if leb 65 c && leb c 90 then c + 32 else c

unfoldable pub equal_case : Name → Name → Bool
equal_case [] [] = true
equal_case [] (y ∷ ys) = false
equal_case (x ∷ xs) [] = false
equal_case (x ∷ xs) (y ∷ ys) = lower x == lower y && equal_case xs ys

-- strstr(text, word) != NULL
unfoldable pub starts_with : Name → Name → Bool
starts_with [] text = true
starts_with (x ∷ xs) [] = false
starts_with (x ∷ xs) (y ∷ ys) = x == y && starts_with xs ys

unfoldable pub has_word : Name → Name → Bool
unfolding starts_with
has_word word [] = starts_with word []
has_word word (c ∷ text) = if starts_with word (c ∷ text) then true else has_word word text

-- strrchr(text, '.')
unfoldable pub last_dot : Name → Option Name
last_dot [] = none
last_dot (c ∷ text) = from_here (last_dot text) c text
  where
    from_here : Option Name → ℕ → Name → Option Name
    from_here (some ext) c text = some ext
    from_here none c text = if c == 46 then some (c ∷ text) else none

abbrev pub get_method : Name
get_method = 71 ∷ 69 ∷ 84 ∷ []

abbrev maxline : ℕ
maxline = 8192

-- request_parse_URI: "./" in front, and what does not fit is cut off.
unfoldable pub parse_uri : Name → Name
parse_uri uri = take (maxline - 1) (46 ∷ 47 ∷ uri)

-- request_get_file_type
unfoldable pub file_type : Name → FileType
unfolding has_word
file_type name =
    if has_word (46 ∷ 104 ∷ 116 ∷ 109 ∷ 108 ∷ []) name
    then text_html
    else if has_word (46 ∷ 103 ∷ 105 ∷ 102 ∷ []) name
    then image_gif
    else if has_word (46 ∷ 106 ∷ 112 ∷ 103 ∷ []) name
    then image_jpeg
    else text_plain

-- The names that request_readfile does not serve: absolute ones, those with "..", and sources in C.
abbrev pub is_source : Option Name → Bool
is_source none = false
is_source (some ext) = if eqb_name ext (46 ∷ 99 ∷ []) then true else eqb_name ext (46 ∷ 104 ∷ [])

abbrev pub is_absolute : Name → Bool
is_absolute [] = false
is_absolute (c ∷ name) = c == 47

unfoldable pub is_refused : Name → Bool
unfolding has_word last_dot eqb_name
is_refused name =
    if is_absolute name
    then true
    else if has_word (46 ∷ 46 ∷ []) name
    then true
    else is_source (last_dot name)

abbrev pub file_of : Name → List ℕ → File
file_of name content = record { file_name = name; file_buf = content; file_size = length content }

abbrev pub set_file : ℕ → File → Store → Store
set_file p file s = record s { files = update s.files p file }

-- What request_readfile finds under a name. It refuses a name with the number of a missing file.
unfoldable pub find_file : (Name → OnDisk) → Name → OnDisk
find_file disk name = if is_refused name then missing else disk name

-- A content from 2^31 bytes on is outside of `int`.
abbrev pub store_file : ℕ → Name → OnDisk → M (Option Reply)
store_file p name missing = pure (some (failure 404))
store_file p name unreadable = pure (some (failure 403))
store_file p name (readable content) =
    if ltb (length content) (2 ^ 31)
    then modify (set_file p (file_of name content)) >> pure none
    else (λ s. undefined)

-- request_readfile: the error that is sent to the client, or `none` for success.
unfoldable pub request_readfile : (Name → OnDisk) → Handle → M (Option Reply)
unfolding find_file
request_readfile disk rq = do
  file ← read_file rq.file
  store_file rq.file file.file_name (find_file disk file.file_name)

-- The checksum of request_sendfile.
unfoldable pub checksum : ℕ → List ℕ → ℕ
checksum csum [] = csum
checksum csum (c ∷ content) = checksum ((csum + c) % 2 ^ 32) content

-- request_sendfile
abbrev pub response_of : File → Reply
response_of file =
    response (file_type file.file_name) file.file_size
      (checksum 0 (take file.file_size file.file_buf)) (take file.file_size file.file_buf)

unfoldable pub request_sendfile : Handle → M Reply
unfolding file_type checksum
request_sendfile rq = do file ← read_file rq.file; pure (response_of file)

-- request_destroy: it closes the descriptor, and `none` is the freed request.
unfoldable pub request_destroy : Option Handle → M (Option Handle)
request_destroy none = λ s. undefined
request_destroy (some rq) = pure none

-- request_init, with the method and the URI of the first line: a request, or NULL.
abbrev pub request_or_error : Handle → Name → Name → M (Option Handle × List Reply)
request_or_error rq method uri =
    if equal_case method get_method
    then modify (set_file rq.file (file_of (parse_uri uri) [])) >> pure (some rq, [])
    else request_destroy (some rq) >> pure (none, failure 501 ∷ [])

unfoldable pub request_init :
    (connfd data_file : ℕ) (method uri : Name) → M (Option Handle × List Reply)
unfolding equal_case parse_uri request_destroy
request_init connfd data_file method uri = do
  modify (set_file data_file (file_of [] []))
  request_or_error (record { fd = connfd; file = data_file }) method uri
