-- ===== src/Http/Response/Undeclared.antt =====
-- wruster/src/http/mod.rs: a response whose length is not among its headers.
use mathlib.Core.List.{append_assoc}
use wruster.Base.{ℕ, suc, ◌+◌, ◌≡◌, ap, ◌∙◌, Option, none, some, [], ◌++◌, Bytes}
use wruster.Http.Body.{Mime, BufWriter, Body, transfer_encoding, content_length_name}
use wruster.Http.Error.{IoError, ok}
use wruster.Http.Headers
use wruster.Http.Headers.Stream.{
  IsWritableAfter, lines_of, count_lines, write-lines_of, read_from-lines_of,
}
use wruster.Http.Io.{Output}
use wruster.Http.Request.Undeclared.{read_from-undeclared, write_body-whole}
use wruster.Http.Request.{announced, write_body}
use wruster.Http.Response.RoundTrip.{line_of-status_line}
use wruster.Http.Response.{Response, used_up, line_of, write, read_from}
use wruster.Http.ResponseLine
use wruster.Http.ResponseLine.RoundTrip.{
  IsStandard, status_line, read_from-status_line, write-reliable,
}

module _ (mime : Mime) where
  open mime use {Media}

  -- A response with a standard status and a body, but without its length among the headers, as
  -- `Response::from_str` makes it, is written without an error, and what was written reads as that
  -- response without its body, whatever follows it.
  pub read_response-without_length :
      (buffered : BufWriter) (lines fuel : ℕ) (r : Response Media) (b : Body Media) (rest : Bytes)
      (ending : Option IoError)
      → r.body ≡ some b
      → b.content.ending ≡ none
      → IsStandard r.status
      → IsWritableAfter [] r.headers
      → Headers.get r.headers transfer_encoding ≡ none
      → Headers.get r.headers content_length_name ≡ none
      → (after : Response Media) × (sent : Output) × (write mime buffered r
            (record { written = []; calls = [] })
          ≡ ok (after, sent))
        × (read_from mime
              (suc lines)
              (count_lines r.headers + fuel)
              (record { unread = sent.written ++ rest; ending = ending })
            ≡ ok (record r { body = none }))
  unfolding write read_from announced
  read_response-without_length buffered lines fuel r b rest ending has whole standard hs te cl =
      let line = ResponseLine.line_of (status_line r.status) in
      let front = line ++ lines_of r.headers in
      let behind = b.content.unread ++ rest in
      let declared : announced r.body r.headers ≡ r.headers =
        ap (λ body. announced body r.headers) has in
      let copies : write_body mime buffered r.body (record { written = front; calls = [] })
          ≡ ok (record { written = front ++ b.content.unread; calls = [] }) =
        ap (λ body. write_body mime buffered body (record { written = front; calls = [] })) has
        ∙ write_body-whole mime buffered b front whole in
      (
        record r { headers = announced r.body r.headers; body = used_up r.body },
        record { written = front ++ b.content.unread; calls = [] },
        rw (
          write-reliable (line_of mime r) [],
          line_of-status_line mime r,
          declared,
          write-lines_of r.headers line,
          copies,
        ),
        rw (
          append_assoc front b.content.unread rest,
          append_assoc line (lines_of r.headers) behind,
          read_from-status_line r.status (lines_of r.headers ++ behind) ending standard,
          read_from-lines_of lines ending fuel r.headers behind hs,
          read_from-undeclared mime (record { unread = behind; ending = ending }) r.headers te cl,
        ),
      )
