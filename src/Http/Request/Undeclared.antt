-- ===== src/Http/Request/Undeclared.antt =====
-- wruster/src/http/mod.rs: a body whose length is not among the headers is sent, and not read.
use mathlib.Core.List.{append_assoc}
use wruster.Base.{ℕ, suc, ◌+◌, ◌*◌, ◌^◌, ◌≡◌, ap, ◌∙◌, Option, none, some, [], ◌++◌, Bytes, ltb}
use wruster.Http.Body
use wruster.Http.Body.{
  Mime, BufWriter, Body, transfer_encoding, content_length_name, check_encoding, declared_length,
  read_declared, at_end,
}
use wruster.Http.Error.{IoError, ok}
use wruster.Http.Headers
use wruster.Http.Headers.Stream.{
  IsWritableAfter, lines_of, count_lines, write-lines_of, read_from-lines_of,
}
use wruster.Http.Headers.{Headers}
use wruster.Http.Io.{Input, Output}
use wruster.Http.Request.RoundTrip.{copied}
use wruster.Http.Request.{Request, announced, write_body, line_of, write, read_from}
use wruster.Http.RequestLine
use wruster.Http.RequestLine.RoundTrip.{IsWritable, read_from-line_of_request, write-reliable}

module _ (mime : Mime) where
  open mime use {Media}

  -- Without a length no body is read.
  pub read_from-undeclared :
      (input : Input) (headers : Headers)
      → Headers.get headers transfer_encoding ≡ none
      → Headers.get headers content_length_name ≡ none
      → Body.read_from mime input headers ≡ ok none
  unfolding Body.read_from check_encoding declared_length read_declared
  read_from-undeclared input headers te cl = rw (te, cl)

  pub write_body-whole :
      (buffered : BufWriter) (b : Body Media) (written : Bytes)
      → b.content.ending ≡ none
      → write_body mime buffered (some b) (record { written = written; calls = [] })
        ≡ ok (record { written = written ++ b.content.unread; calls = [] })
  unfolding write_body Body.write
  write_body-whole buffered b written whole =
      rw (copied mime buffered (ltb (2 ^ 20 * 2) b.content_length) written b.content.unread, whole)

  written-undeclared :
      (buffered : BufWriter) (r : Request Media) (b : Body Media)
      → r.body ≡ some b
      → b.content.ending ≡ none
      → write mime buffered r (record { written = []; calls = [] })
        ≡ ok (record {
          written =
              (RequestLine.line_of (line_of mime r) ++ lines_of r.headers) ++ b.content.unread;
          calls = [];
        })
  unfolding write announced
  written-undeclared buffered r b has whole =
      let line = RequestLine.line_of (line_of mime r) in
      let declared : announced r.body r.headers ≡ r.headers =
        ap (λ body. announced body r.headers) has in
      let copies : write_body mime buffered r.body
            (record { written = line ++ lines_of r.headers; calls = [] })
          ≡ ok (record { written = (line ++ lines_of r.headers) ++ b.content.unread; calls = [] }) =
        ap
          (λ body.
            write_body mime buffered body
              (record { written = line ++ lines_of r.headers; calls = [] }))
          has
        ∙ write_body-whole buffered b (line ++ lines_of r.headers) whole in
      rw (write-reliable (line_of mime r) [], declared, write-lines_of r.headers line, copies)

  -- A request with a body, but without its length among the headers, as `Request::from` makes it, is
  -- written without an error, and what was written reads as that request without its body, whatever
  -- follows it.
  pub read_from-without_length :
      (buffered : BufWriter) (lines fuel : ℕ) (r : Request Media) (b : Body Media) (rest : Bytes)
      (ending : Option IoError)
      → r.body ≡ some b
      → b.content.ending ≡ none
      → IsWritable (line_of mime r)
      → IsWritableAfter [] r.headers
      → Headers.get r.headers transfer_encoding ≡ none
      → Headers.get r.headers content_length_name ≡ none
      → (sent : Output) × (write mime buffered r (record { written = []; calls = [] }) ≡ ok sent)
        × (read_from mime
              (suc lines)
              (count_lines r.headers + fuel)
              (record { unread = sent.written ++ rest; ending = ending })
            ≡ ok (record r { body = none }))
  unfolding write read_from announced
  read_from-without_length buffered lines fuel r b rest ending has whole writable hs te cl =
      let line = RequestLine.line_of (line_of mime r) in
      let front = line ++ lines_of r.headers in
      let behind = b.content.unread ++ rest in
      (
        record { written = front ++ b.content.unread; calls = [] },
        written-undeclared buffered r b has whole,
        rw (
          append_assoc front b.content.unread rest,
          append_assoc line (lines_of r.headers) behind,
          read_from-line_of_request (line_of mime r) (lines_of r.headers ++ behind) ending writable,
          read_from-lines_of lines ending fuel r.headers behind hs,
          read_from-undeclared (record { unread = behind; ending = ending }) r.headers te cl,
        ),
      )
