-- ===== src/Http/Request/RoundTrip.antt =====
-- A request that is written is read back.
use mathlib.Core.List.{append_assoc, append-nil}
use wruster.Base.{
  if◌then◌else◌, ◌*◌, ◌^◌, ltb, Bool, true, ℕ, suc, ◌+◌, ◌<◌, false, ◌==◌, ◌≡◌, ◌∙◌, Option, none,
  some, [], ◌∷◌, ◌++◌, Bytes, arith, length, codes, equal,
}
use wruster.Base.Decimal.{decimal, usize_limit}
use wruster.Http.Body
use wruster.Http.Body.Framing.{read_from-sized, read_from-empty, take_input-append}
use wruster.Http.Body.{
  Mime, BufWriter, Body, declared_type, transfer_encoding, content_length_name, content_type_name,
  at_end,
}
use wruster.Http.Error.{ok, IoError}
use wruster.Http.Headers
use wruster.Http.Headers.Lookup.{get-add}
use wruster.Http.Headers.Stream.{
  IsWritableAfter, lines_of, count_lines, write-lines_of, read_from-lines_of,
}
use wruster.Http.Headers.{Headers}
use wruster.Http.Io.Laws.{write_all-reliable}
use wruster.Http.Io.{Output, write_all}
use wruster.Http.Request.{
  Request, announced, content_length_header, read_from, write_body, line_of, write,
}
use wruster.Http.RequestLine
use wruster.Http.RequestLine.RoundTrip.{IsWritable, read_from-line_of_request, write-reliable}

module _ (mime : Mime) where
  open mime use {Media}

  -- The headers tell the length of the body, and its type.
  abbrev pub IsDeclared : Option (Body Media) → Headers → Type 0
  IsDeclared none headers = Headers.get headers content_length_name ≡ none
  IsDeclared (some b) headers =
      (0 < b.content_length)
      × (b.content_length < usize_limit)
      × (b.content_length ≡ length b.content.unread)
      × (b.content.ending ≡ none)
      × (b.bytes_read ≡ 0)
      × (Headers.get headers content_length_name ≡ some (decimal b.content_length ∷ []))
      × (declared_type mime (Headers.get headers content_type_name) ≡ ok b.content_type)

  pub record IsSendable (r : Request Media) : Type 0 where
    pub line : IsWritable (line_of mime r)
    pub headers : IsWritableAfter [] (announced r.body r.headers)
    pub no_encoding : Headers.get r.headers transfer_encoding ≡ none
    pub declared : IsDeclared r.body r.headers

  abbrev pub content_of : Option (Body Media) → Bytes
  content_of none = []
  content_of (some b) = b.content.unread

  abbrev pub message_of : Request Media → Bytes
  message_of r =
      RequestLine.line_of (line_of mime r)
      ++ (lines_of (announced r.body r.headers) ++ content_of r.body)

  pub copied :
      (buffered : BufWriter) (b : Bool) (written buf : Bytes)
      → (if b
          then buffered.copy (record { written = written; calls = [] }) buf
          else write_all (record { written = written; calls = [] }) buf)
        ≡ ok (record { written = written ++ buf; calls = [] })
  copied buffered true written buf = buffered.copy-reliable written buf
  copied buffered false written buf = write_all-reliable written buf

  pub write-body :
      (buffered : BufWriter) (body : Option (Body Media)) (headers : Headers) (written : Bytes)
      → IsDeclared body headers
      → write_body mime buffered body (record { written = written; calls = [] })
        ≡ ok (record { written = written ++ content_of body; calls = [] })
  unfolding write_body Body.write
  write-body buffered none headers written h = rw append-nil
  write-body buffered (some b) headers written h =
      rw (copied buffered (ltb (2 ^ 20 * 2) b.content_length) written b.content.unread, h.3)

  -- A writer that takes everything is given the whole message.
  pub write-message_of :
      (buffered : BufWriter) (r : Request Media)
      → IsSendable r
      → write mime buffered r (record { written = []; calls = [] })
        ≡ ok (record { written = message_of r; calls = [] })
  unfolding write
  write-message_of buffered r v = rw (
    write-reliable (line_of mime r) [],
    write-lines_of (announced r.body r.headers) (RequestLine.line_of (line_of mime r)),
    write-body buffered r.body r.headers
        (RequestLine.line_of (line_of mime r) ++ lines_of (announced r.body r.headers)) v.declared,
    append_assoc (RequestLine.line_of (line_of mime r)) (lines_of (announced r.body r.headers))
        (content_of r.body),
  )

  -- The body is framed by the headers that were sent with it.
  pub read-body :
      (body : Option (Body Media)) (headers : Headers) (rest : Bytes) (ending : Option IoError)
      → Headers.get headers transfer_encoding ≡ none
      → IsDeclared body headers
      → Body.read_from mime
          (record { unread = content_of body ++ rest; ending = ending })
          (announced body headers)
        ≡ ok body
  unfolding announced equal Body.new
  read-body none headers rest ending te h =
      read_from-empty mime _ (Headers.add headers (content_length_header (codes "0")))
        (get-add headers _ transfer_encoding ∙ te) (get-add headers _ content_length_name ∙ rw h)
  read-body (some b) headers rest ending te (pos, small, size, ends, fresh, cl, ct) =
      let some_bytes : (length b.content.unread == 0) ≡ false = ground arith in
      read_from-sized mime _ headers b.content_length b.content_type small te cl ct
      ∙ rw (size, ends, fresh, take_input-append b.content.unread rest ending, some_bytes)

  pub read_from-message_of :
      (lines fuel : ℕ) (r : Request Media) (rest : Bytes) (ending : Option IoError)
      → IsSendable r
      → read_from mime
          (suc lines)
          (count_lines (announced r.body r.headers) + fuel)
          (record { unread = message_of r ++ rest; ending = ending })
        ≡ ok (record r { headers = announced r.body r.headers })
  unfolding read_from
  read_from-message_of lines fuel r rest ending v =
      let hs = announced r.body r.headers in
      let line = RequestLine.line_of (line_of mime r) in
      let behind = content_of r.body ++ rest in
      rw (
        append_assoc line (lines_of hs ++ content_of r.body) rest,
        append_assoc (lines_of hs) (content_of r.body) rest,
        read_from-line_of_request (line_of mime r) (lines_of hs ++ behind) ending v.line,
        read_from-lines_of lines ending fuel hs behind v.headers,
        read-body r.body r.headers rest ending v.no_encoding v.declared,
      )

  -- A sendable request is written without an error, and what was written reads as that request, with
  -- the length 0 added to its headers when it has no body, whatever follows it in the input.
  pub read_from-write :
      (buffered : BufWriter) (lines fuel : ℕ) (r : Request Media) (rest : Bytes)
      (ending : Option IoError)
      → IsSendable r
      → (sent : Output) × (write mime buffered r (record { written = []; calls = [] }) ≡ ok sent)
        × (read_from mime
              (suc lines)
              (count_lines (announced r.body r.headers) + fuel)
              (record { unread = sent.written ++ rest; ending = ending })
            ≡ ok (record r { headers = announced r.body r.headers }))
  read_from-write buffered lines fuel r rest ending v = (
    record { written = message_of r; calls = [] },
    write-message_of buffered r v,
    read_from-message_of lines fuel r rest ending v,
  )
