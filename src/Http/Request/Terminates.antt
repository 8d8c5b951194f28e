-- ===== src/Http/Request/Terminates.antt =====
-- wruster/src/http: reading a request ends, when its reader ends in an error.
use wruster.Base.{
  ℕ, zero, suc, ◌<◌, ◌≤◌, ◌≡◌, ◌≢◌, Option, none, some, List, [], ◌∷◌, ◌++◌, Bytes, length, take,
  ◌-◌, arith, ◌==◌, Bool-cases, Option-cases, inl, inr,
}
use wruster.Base.Decimal.{ParseInt, parse_usize}
use wruster.Http.Body
use wruster.Http.Body.{Mime, Body}
use wruster.Http.Error.{IoError, running, of_io}
use wruster.Http.Error.Settles.{Settles, Any, >>=-Settles, Settles-ne_running}
use wruster.Http.Header
use wruster.Http.Header.{Header}
use wruster.Http.Headers
use wruster.Http.Headers.{Headers}
use wruster.Http.Io.{Input}
use wruster.Http.Io.Shrinks.{IsShorter, IsShorter-le, IsShorter-few, read-Settles}
use wruster.Http.Request
use wruster.Http.Request.{Request}
use wruster.Http.RequestLine
use wruster.Http.RequestLine.{HttpRequestLine, unknown_io}

module _ (e : IoError) where
  read_line-Settles :
      (fuel n : ℕ) (line : Bytes) (from : Input)
      → length from.unread < fuel
      → length from.unread ≤ n
      → from.ending ≡ some e
      → Settles (Header.read_line fuel line from) (λ (read, rest). IsShorter n e rest)
  unfolding Header.read_line
  read_line-Settles zero n line from enough few ends = absurd (omega arith)
  read_line-Settles (suc fuel) n line from enough few ends =
      read-Settles e b'\n' (length from.unread) from of_io _ _ (omega arith) ends
        (λ chunk rest short. elim (Bool-cases (Header.ends_with_crlf (line ++ chunk))) [
          | inl whole ↦ rw whole (IsShorter-le rest few short)
          | inr partial ↦ rw partial (
              read_line-Settles fuel n (line ++ chunk) rest (omega (arith, short.shorter))
                (omega (arith, short.shorter)) short.ends)
        ])

parse_value-Settles : (name rest : Bytes) → Settles (Header.parse_value name rest) Any
unfolding Header.parse_value
parse_value-Settles name [] = tt
parse_value-Settles name (c ∷ cs) = ground arith

parse_name-Settles : (name rest : Bytes) → Settles (Header.parse_name name rest) Any
unfolding Header.parse_name
parse_name-Settles [] rest = tt
parse_name-Settles (n ∷ name) [] = tt
parse_name-Settles (n ∷ name) (c ∷ cs) = ground (arith, parse_value-Settles (n ∷ name) cs)

parse_header_line-Settles : (line : Bytes) → Settles (Header.parse_header_line line) Any
unfolding Header.parse_header_line
parse_header_line-Settles line =
    let split = Header.token (take (length line - 2) line) in
    ground (arith, parse_name-Settles split.0 split.1)

parse_method-Settles : (method : Bytes) → Settles (RequestLine.parse_method method) Any
unfolding RequestLine.parse_method
parse_method-Settles method = ground arith

parse_uri-Settles : (uri : Bytes) → Settles (RequestLine.parse_uri uri) Any
unfolding RequestLine.parse_uri
parse_uri-Settles uri = ground arith

parse_version-Settles : (version : Bytes) → Settles (RequestLine.parse_version version) Any
unfolding RequestLine.parse_version
parse_version-Settles version = ground arith

check_encoding-Settles : (values : Option (List Bytes)) → Settles (Body.check_encoding values) Any
unfolding Body.check_encoding
check_encoding-Settles none = tt
check_encoding-Settles (some []) = tt
check_encoding-Settles (some (v ∷ [])) = ground arith
check_encoding-Settles (some (v ∷ w ∷ vs)) = tt

parsed_length-Settles : (n : ParseInt) → Settles (Body.parsed_length n) Any
unfolding Body.parsed_length
parsed_length-Settles (ParseInt.value n) = tt
parsed_length-Settles _ = tt

declared_length-Settles : (values : Option (List Bytes)) → Settles (Body.declared_length values) Any
unfolding Body.declared_length
declared_length-Settles none = tt
declared_length-Settles (some []) = tt
declared_length-Settles (some (v ∷ [])) = parsed_length-Settles (parse_usize v)
declared_length-Settles (some (v ∷ w ∷ vs)) = tt

module _ (mime : Mime) where
  declared_type-Settles :
      (values : Option (List Bytes)) → Settles (Body.declared_type mime values) Any
  unfolding Body.declared_type
  declared_type-Settles none = tt
  declared_type-Settles (some []) = tt
  declared_type-Settles (some (t ∷ ts)) = ground arith

  read_declared-Settles :
      (len : Option ℕ) (from : Input) (headers : Headers)
      → Settles (Body.read_declared mime len from headers) Any
  unfolding Body.read_declared Body.read_sized
  read_declared-Settles none from headers = tt
  read_declared-Settles (some len) from headers =
      let types = Headers.get headers Body.content_type_name in
      elim (Bool-cases (len == 0)) [
        | inl empty ↦ rw empty tt
        | inr sized ↦ rw sized (
            >>=-Settles Any Any (Body.declared_type mime types) _ (declared_type-Settles types)
              (λ media h. tt))
      ]

  body-Settles : (from : Input) (headers : Headers) → Settles (Body.read_from mime from headers) Any
  unfolding Body.read_from
  body-Settles from headers =
      let encodings = Headers.get headers Body.transfer_encoding in
      let lengths = Headers.get headers Body.content_length_name in
      >>=-Settles Any Any (Body.check_encoding encodings) _ (check_encoding-Settles encodings)
        (λ _ h.
          >>=-Settles Any Any (Body.declared_length lengths) _ (declared_length-Settles lengths)
            (λ len h. read_declared-Settles len from headers))

module _ (e : IoError) where
  -- A reader that ends in the error has fewer than `n` bytes to come.
  header-Settles :
      (lines : ℕ) (from : Input)
      → length from.unread < lines
      → from.ending ≡ some e
      → Settles (Header.read_from lines from) (λ (h, rest). IsShorter (length from.unread) e rest)
  unfolding Header.read_from
  header-Settles lines from enough ends =
      >>=-Settles (λ (line, rest). IsShorter (length from.unread) e rest) _
        (Header.read_line lines [] from) _
        (read_line-Settles e lines (length from.unread) [] from enough (omega arith) ends)
        (λ (line, rest) short.
          >>=-Settles Any _ (Header.parse_header_line line) _ (parse_header_line-Settles line)
            (λ h _. short))

  headers-Settles :
      (lines fuel : ℕ) (headers : Headers) (from : Input)
      → length from.unread < lines
      → length from.unread < fuel
      → from.ending ≡ some e
      → Settles (Headers.read_headers lines fuel headers from) Any
  unfolding Headers.read_headers
  headers-Settles lines zero headers from enough more ends = absurd (omega arith)
  headers-Settles lines (suc fuel) headers from enough more ends =
      >>=-Settles (λ (h, rest). IsShorter (length from.unread) e rest) _
        (Header.read_from lines from) _ (header-Settles lines from enough ends)
        (λ (found, rest) short. elim (Option-cases found) [
          | inl end ↦ rw end tt
          | inr (h, more_follow) ↦ rw more_follow (
              headers-Settles lines fuel (Headers.add headers h) rest (omega (arith, short.shorter))
                (omega (arith, short.shorter)) short.ends)
        ])

  -- The line of a request, of three parts.
  line-Settles :
      (from : Input)
      → from.ending ≡ some e
      → Settles (RequestLine.read_from from) (λ (line, rest). IsShorter (length from.unread) e rest)
  unfolding RequestLine.read_from
  line-Settles from ends =
      let n = length from.unread in
      read-Settles e b' ' n from of_io _ _ (omega arith) ends (λ method from1 short1.
        >>=-Settles Any _ (RequestLine.parse_method method) _ (parse_method-Settles method) (λ m _.
          read-Settles e b' ' n from1 unknown_io _ _ (IsShorter-few short1) short1.ends
            (λ uri from2 short2.
              >>=-Settles Any _ (RequestLine.parse_uri uri) _ (parse_uri-Settles uri) (λ u _.
                read-Settles e b'\n' n from2 of_io _ _ (IsShorter-few short2) short2.ends
                  (λ version from3 short3.
                    >>=-Settles Any _ (RequestLine.parse_version version) _
                      (parse_version-Settles version) (λ v _. short3))))))

module _ (mime : Mime) where
  -- Reading a request from a reader that ends in an error does not run on for ever: one round for
  -- each byte to come and one more are enough for each of the loops that read the headers.
  pub read_from-terminates :
      (lines fuel : ℕ) (from : Input) (e : IoError)
      → length from.unread < lines
      → length from.unread < fuel
      → from.ending ≡ some e
      → Request.read_from mime lines fuel from ≢ running
  unfolding Request.read_from Headers.read_from
  read_from-terminates lines fuel from e enough more ends =
      Settles-ne_running Any (Request.read_from mime lines fuel from) (
        >>=-Settles (λ (line, rest). IsShorter (length from.unread) e rest) _
          (RequestLine.read_from from) _ (line-Settles e from ends)
          (λ (line, rest) short.
            >>=-Settles Any Any (Headers.read_headers lines fuel Headers.new rest) _
              (headers-Settles e lines fuel Headers.new rest (omega (arith, short.shorter))
                (omega (arith, short.shorter)) short.ends)
              (λ (headers, behind) _.
                >>=-Settles Any Any (Body.read_from mime behind headers) _
                  (body-Settles mime behind headers) (λ body _. tt))))
