-- ===== src/Http/Response/RoundTrip.antt =====
-- A response that is written is read back.
use mathlib.Core.List.{append_assoc}
use wruster.Base.{ℕ, suc, ◌+◌, ◌≡◌, none, Option, [], ◌++◌, Bytes}
use wruster.Http.Body.{Mime, BufWriter, transfer_encoding}
use wruster.Http.Error.{ok, IoError}
use wruster.Http.Headers
use wruster.Http.Headers.Stream.{
  IsWritableAfter, lines_of, count_lines, write-lines_of, read_from-lines_of,
}
use wruster.Http.Io.{Output}
use wruster.Http.Request.RoundTrip.{IsDeclared, content_of, write-body, read-body}
use wruster.Http.Request.{announced}
use wruster.Http.Response.{Response, used_up, line_of, write, read_from}
use wruster.Http.ResponseLine
use wruster.Http.ResponseLine.RoundTrip.{
  IsStandard, status_line, read_from-status_line, write-reliable,
}
use wruster.Http.Status.Laws.{clone_lem}
use wruster.Http.Version

module _ (mime : Mime) where
  open mime use {Media}

  pub record IsSendable (r : Response Media) : Type 0 where
    pub standard : IsStandard r.status
    pub headers : IsWritableAfter [] (announced r.body r.headers)
    pub no_encoding : Headers.get r.headers transfer_encoding ≡ none
    pub declared : IsDeclared mime r.body r.headers

  abbrev pub message_of : Response Media → Bytes
  message_of r =
      ResponseLine.line_of (status_line r.status)
      ++ (lines_of (announced r.body r.headers) ++ content_of mime r.body)

  pub line_of-status_line :
      (r : Response Media)
      → ResponseLine.line_of (line_of mime r) ≡ ResponseLine.line_of (status_line r.status)
  unfolding ResponseLine.line_of Version.to_string
  line_of-status_line r = rw (clone_lem r.status)

  -- A writer that takes everything is given the whole message.
  pub write-message_of :
      (buffered : BufWriter) (r : Response Media) (before : Bytes)
      → IsSendable r
      → write mime buffered r (record { written = before; calls = [] })
        ≡ ok (
          record r { headers = announced r.body r.headers; body = used_up r.body },
          record { written = before ++ message_of r; calls = [] },
        )
  unfolding write
  write-message_of buffered r before v =
      let line = ResponseLine.line_of (status_line r.status) in
      let lines = lines_of (announced r.body r.headers) in
      rw (
        write-reliable (line_of mime r) before,
        line_of-status_line r,
        write-lines_of (announced r.body r.headers) (before ++ line),
        write-body mime buffered r.body r.headers ((before ++ line) ++ lines) v.declared,
        append_assoc (before ++ line) lines (content_of mime r.body),
        append_assoc before line (lines ++ content_of mime r.body),
      )

  pub read_from-message_of_response :
      (lines fuel : ℕ) (r : Response Media) (rest : Bytes) (ending : Option IoError)
      → IsSendable r
      → read_from mime
          (suc lines)
          (count_lines (announced r.body r.headers) + fuel)
          (record { unread = message_of r ++ rest; ending = ending })
        ≡ ok (record r { headers = announced r.body r.headers })
  unfolding read_from
  read_from-message_of_response lines fuel r rest ending v =
      let hs = announced r.body r.headers in
      let line = ResponseLine.line_of (status_line r.status) in
      let behind = content_of mime r.body ++ rest in
      rw (
        append_assoc line (lines_of hs ++ content_of mime r.body) rest,
        append_assoc (lines_of hs) (content_of mime r.body) rest,
        read_from-status_line r.status (lines_of hs ++ behind) ending v.standard,
        read_from-lines_of lines ending fuel hs behind v.headers,
        read-body mime r.body r.headers rest ending v.no_encoding v.declared,
      )

  -- A sendable response with a standard status is written without an error, and what was written
  -- reads as that response, with the length 0 added to its headers when it has no body, whatever
  -- follows it in the input.
  pub read_from-write_response :
      (buffered : BufWriter) (lines fuel : ℕ) (r : Response Media) (rest : Bytes)
      (ending : Option IoError)
      → IsSendable r
      → (after : Response Media) × (sent : Output) × (write mime buffered r
            (record { written = []; calls = [] })
          ≡ ok (after, sent))
        × (read_from mime
              (suc lines)
              (count_lines (announced r.body r.headers) + fuel)
              (record { unread = sent.written ++ rest; ending = ending })
            ≡ ok (record r { headers = announced r.body r.headers }))
  read_from-write_response buffered lines fuel r rest ending v = (
    record r { headers = announced r.body r.headers; body = used_up r.body },
    record { written = message_of r; calls = [] },
    write-message_of buffered r [] v,
    read_from-message_of_response lines fuel r rest ending v,
  )
