-- ===== src/Http/Response/Terminates.antt =====
-- wruster/src/http: writing a response ends.
use wruster.Base.{
  zero, suc, Option, none, some, List, [], ◌∷◌, Bytes, Bool-cases, inl, inr, if◌then◌else◌, ltb,
  take, drop, ◌++◌, ◌^◌, ◌*◌,
}
use wruster.Http.Body
use wruster.Http.Body.{Mime, BufWriter, Body}
use wruster.Http.Error.Settles.{Settles, Any, >>=-Settles, map_err-Settles}
use wruster.Http.Error.{IoError, map_err}
use wruster.Http.Header
use wruster.Http.Header.{Header, of_write_error}
use wruster.Http.Headers
use wruster.Http.Headers.{Headers}
use wruster.Http.Io
use wruster.Http.Io.{Output, Call, takes, fails, write_all, write_all_calls}
use wruster.Http.Request.{announced, write_body}
use wruster.Http.Response
use wruster.Http.Response.{Response}
use wruster.Http.ResponseLine

write_all_calls-Settles :
    (written : Bytes) (calls : List Call) (buf : Bytes)
    → Settles (write_all_calls written calls buf) Any
unfolding write_all_calls
write_all_calls-Settles written calls [] = tt
write_all_calls-Settles written [] (c ∷ cs) = tt
write_all_calls-Settles written (takes zero ∷ calls) (c ∷ cs) = tt
write_all_calls-Settles written (takes (suc n) ∷ calls) (c ∷ cs) =
    write_all_calls-Settles (written ++ take (suc n) (c ∷ cs)) calls (drop (suc n) (c ∷ cs))
write_all_calls-Settles written (fails e ∷ calls) (c ∷ cs) = tt

write_call-Settles :
    (written : Bytes) (calls : List Call) (buf : Bytes)
    → Settles (Io.write_call written calls buf) Any
unfolding Io.write_call
write_call-Settles written [] buf = tt
write_call-Settles written (takes n ∷ calls) buf = tt
write_call-Settles written (fails e ∷ calls) buf = tt

-- One piece of a header.
piece-Settles :
    (to : Output) (buf : Bytes) → Settles (map_err of_write_error (write_all to buf)) Any
unfolding write_all
piece-Settles to buf =
    map_err-Settles Any of_write_error (write_all to buf)
      (write_all_calls-Settles to.written to.calls buf)

header-Settles : (h : Header) (to : Output) → Settles (Header.write h to) Any
unfolding Header.write
header-Settles h to = >>=-Settles Any Any _ _ (piece-Settles to h.name) (λ to1 _.
    >>=-Settles Any Any _ _ (piece-Settles to1 _)
      (λ to2 _. >>=-Settles Any Any _ _ (piece-Settles to2 h.value) (λ to3 _. piece-Settles to3 _)))

values-Settles :
    (name : Bytes) (values : List Bytes) (to : Output)
    → Settles (Headers.write_values name values to) Any
unfolding Headers.write_values
values-Settles name [] to = tt
values-Settles name (v ∷ vs) to =
    >>=-Settles Any Any _ _ (header-Settles _ to) (λ to1 _. values-Settles name vs to1)

entries-Settles : (hs : Headers) (to : Output) → Settles (Headers.write_entries hs to) Any
unfolding Headers.write_entries
entries-Settles [] to = tt
entries-Settles ((name, vs) ∷ hs) to =
    >>=-Settles Any Any _ _ (values-Settles name vs to) (λ to1 _. entries-Settles hs to1)

headers-Settles : (hs : Headers) (to : Output) → Settles (Headers.write hs to) Any
unfolding Headers.write
headers-Settles hs to =
    >>=-Settles Any Any _ _ (entries-Settles hs to) (λ to1 _. piece-Settles to1 _)

module _ (mime : Mime) (buffered : BufWriter)
    (copies : (to : Output) (buf : Bytes) → Settles (buffered.copy to buf) Any) where
  open mime use {Media}

  at_end-Settles :
      (ending : Option IoError) (to : Output) → Settles (Body.at_end mime ending to) Any
  at_end-Settles none to = tt
  at_end-Settles (some e) to = tt

  body-Settles :
      (body : Option (Body Media)) (to : Output) → Settles (write_body mime buffered body to) Any
  unfolding write_body Body.write
  body-Settles none to = tt
  body-Settles (some body) to =
      let copied : Settles
          (if ltb (2 ^ 20 * 2) body.content_length
            then buffered.copy to body.content.unread
            else write_all to body.content.unread)
          Any =
        elim (Bool-cases (ltb (2 ^ 20 * 2) body.content_length)) [
          | inl large ↦ rw large (copies to body.content.unread)
          | inr small ↦
              rw small (
                unfold write_all in write_all_calls-Settles to.written to.calls body.content.unread)
        ] in
      >>=-Settles Any Any _ _ (map_err-Settles Any of_write_error _ copied)
        (λ to1 _. at_end-Settles body.content.ending to1)

  -- Writing a response does not run on for ever, if a copy through the buffer does not.
  pub response-Settles :
      (r : Response Media) (to : Output) → Settles (Response.write mime buffered r to) Any
  unfolding Response.write ResponseLine.write Io.write
  response-Settles r to =
      >>=-Settles Any Any _ _ (map_err-Settles Any _ _ (write_call-Settles to.written to.calls _))
        (λ to1 _.
          >>=-Settles Any Any _ _ (headers-Settles (announced r.body r.headers) to1)
            (λ to2 _. >>=-Settles Any Any _ _ (body-Settles r.body to2) (λ to3 _. tt)))
