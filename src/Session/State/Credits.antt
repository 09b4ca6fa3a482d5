-- ===== src/Session/State/Credits.antt =====
-- What `send` of src/session/mod.rs does on each of its branches.
use seam.Prelude.{
  ℕ, ◌+◌, ◌≤◌, List, none, some, true, ◌≡◌, refl, sym, ap, ◌∙◌, ◌⊎◌, inl, inr, arith, ◌==◌,
  if◌then◌else◌, Bool-cases, Option-cases, length,
}
use mathlib.Core.Path.{ap₂}
use seam.Prelude.Map.{lookup, insert, lookup-insert}
use seam.Error.{SeamError, Result, ok, err, unknown_stream, stream_finished}
use seam.Session.Flow.{FlowWindow, reserve, available}
use seam.Session.Flow.Credit.{IsValid, reserve_fits}
use seam.Session.Stream
use seam.Session.Stream.{Stream}
use seam.Session.Stream.Send
use seam.Session.State.{Session, send}

pub Result-cases {ℓ} :
    {A : Type ℓ} (r : Result A) → ((e : SeamError) × (r ≡ err e)) ⊎ ((a : A) × (r ≡ ok a))
Result-cases (err e) = inl (e, refl)
Result-cases (ok a) = inr (a, refl)

module _ (s : Session) (stream_id : ℕ) (data' : List ℕ) where
  abbrev pub after_reserve : Session
  after_reserve = record s { send_window = (reserve s.send_window (length data')).1 }

  -- The window of the connection with the bytes taken from it.
  abbrev pub charged_window : FlowWindow
  charged_window = record s.send_window { consumed = s.send_window.consumed + length data' }

  abbrev pub after_write : Stream → Session
  after_write stream = record after_reserve {
    streams = insert stream_id (Stream.write stream data').1 s.streams;
  }

  pub send_blocked :
      (e : SeamError)
      → (reserve s.send_window (length data')).0 ≡ err e
      → send s stream_id data' ≡ (err e, after_reserve)
  unfolding send
  send_blocked e h = rw (h, send) refl

  pub send_unknown :
      (reserve s.send_window (length data')).0 ≡ ok tt
      → lookup stream_id s.streams ≡ none
      → send s stream_id data' ≡ (err (unknown_stream stream_id), after_reserve)
  unfolding send
  send_unknown h k = rw (h, send) (rw k refl)

  pub send_refused :
      (stream : Stream) (e : SeamError)
      → (reserve s.send_window (length data')).0 ≡ ok tt
      → lookup stream_id s.streams ≡ some stream
      → (Stream.write stream data').0 ≡ err e
      → send s stream_id data' ≡ (err e, after_write stream)
  unfolding send
  send_refused stream e h k w = rw (h, send) (rw k (rw w refl))

  pub send_taken :
      (stream : Stream) (n : ℕ)
      → (reserve s.send_window (length data')).0 ≡ ok tt
      → lookup stream_id s.streams ≡ some stream
      → (Stream.write stream data').0 ≡ ok n
      → send s stream_id data' ≡ (ok tt, after_write stream)
  unfolding send
  send_taken stream n h k w = rw (h, send) (rw k (rw w refl))

  -- Where the window allows it, a send takes the bytes from the window of the connection, whatever
  -- it then answers. Where there is no such stream it fails and changes nothing else. Where the stream
  -- is finished it fails as well, stores that stream again as it was, so that every stream is the
  -- same as before, and changes nothing else.
  pub send_charges :
      IsValid s.send_window
      → length data' ≤ available s.send_window
      → ((send s stream_id data').1.send_window ≡ charged_window)
        × (lookup stream_id s.streams ≡ none
            → send s stream_id data'
              ≡ (err (unknown_stream stream_id), record s { send_window = charged_window }))
        × ((stream : Stream)
            → lookup stream_id s.streams ≡ some stream
            → stream.fin_sent ≡ true
            → (send s stream_id data' ≡ (
              err (stream_finished stream.id),
              record s {
                send_window = charged_window;
                streams = insert stream_id stream s.streams;
              },
            ))
              × ((n : ℕ) → lookup n (send s stream_id data').1.streams ≡ lookup n s.streams))
  send_charges v fits = (
    charged,
    (λ missing. send_unknown granted missing ∙ ap failed window),
    (λ stream found done.
        let same = finished stream found done in
        (
          same,
          (λ n.
              ap (λ r. lookup n r.1.streams) same
              ∙ lookup-insert stream_id n stream s.streams
              ∙ kept n stream found),
        )),
  )
    where
      failed : FlowWindow → Result (Unit {0}) × Session
      failed w = (err (unknown_stream stream_id), record s { send_window = w })

      refused : Stream → FlowWindow → Stream → Result (Unit {0}) × Session
      refused stream w stream' = (
        err (stream_finished stream.id),
        record s { send_window = w; streams = insert stream_id stream' s.streams },
      )

      granted : (reserve s.send_window (length data')).0 ≡ ok tt
      granted = ap (λ r. r.0) (reserve_fits s.send_window (length data') v fits)

      window : (reserve s.send_window (length data')).1 ≡ charged_window
      window = ap (λ r. r.1) (reserve_fits s.send_window (length data') v fits)

      finished :
          (stream : Stream)
          → lookup stream_id s.streams ≡ some stream
          → stream.fin_sent ≡ true
          → send s stream_id data' ≡ refused stream charged_window stream
      finished stream found done =
          let answer = Send.write_finished stream data' done in
          send_refused stream _ granted found (ap (λ r. r.0) answer)
          ∙ ap₂ (refused stream) window (ap (λ r. r.1) answer)

      kept :
          (n : ℕ) (stream : Stream)
          → lookup stream_id s.streams ≡ some stream
          → (if stream_id == n then some stream else lookup n s.streams) ≡ lookup n s.streams
      kept n stream found = elim (Bool-cases (stream_id == n)) [
        | inl same ↦
            rw same
              (sym found ∙ ap (λ k. lookup k s.streams) {x = stream_id} {y = n} (ground arith))
        | inr other ↦ rw other refl
      ]

      charged : (send s stream_id data').1.send_window ≡ charged_window
      charged = elim (Option-cases (lookup stream_id s.streams)) [
        | inl missing ↦ rw (send_unknown granted missing) window
        | inr (stream, found) ↦ elim (Result-cases (Stream.write stream data').0) [
          | inl (e, h) ↦ rw (send_refused stream e granted found h) window
          | inr (n, h) ↦ rw (send_taken stream n granted found h) window
        ]
      ]
