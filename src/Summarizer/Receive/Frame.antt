-- ===== src/Summarizer/Receive/Frame.antt =====
-- What the summarizer receives of a frame that the temporal service published whole.
use khadas_yolov8n_multithre.Prelude.{
  ℕ, ◌+◌, ◌-◌, ◌*◌, ◌%◌, ◌^◌, ◌<◌, ◌≡◌, refl, sym, ap, ◌∙◌, true, false, some, List, [], ◌∷◌, ◌++◌,
  map, arith, ltb, ◌==◌, length, take, drop, inl, inr, Bool-cases, append_assoc, length-append,
  length-map, length-drop, take_all, ==→≡, take-append, drop-append, take-append-drop,
  drop-append-length,
}
use khadas_yolov8n_multithre.Prelude.Float.{Float32}
use khadas_yolov8n_multithre.Stream.{Input, Sent, read}
use khadas_yolov8n_multithre.Stream.Read.{flat, Lively, read-Front, read_exact-front}
use khadas_yolov8n_multithre.Stream.Write.{Writes-ok}
use khadas_yolov8n_multithre.Wire.{
  WireFrameHeader, header_size, summary_size, encode_header, encode_summary, decode_summary,
  decode_header, le, word,
}
use khadas_yolov8n_multithre.Wire.{word-prefix, length-le}
use khadas_yolov8n_multithre.Wire.Roundtrip.{
  IsHeader, IsSummary, decode-encode_header, length-encode_header, decode-encode_summary,
  length-encode_summary,
}
use khadas_yolov8n_multithre.Frames.{send_frame_of, read_records}
use khadas_yolov8n_multithre.Frames.Roundtrip.{
  joined, frame_bytes, AllSized, read_records-front, send_frame_of-Writes,
}
use khadas_yolov8n_multithre.Temporal.State.{TrackState}
use khadas_yolov8n_multithre.Services.{fill_summary, publish_frame}
use khadas_yolov8n_multithre.Summarizer.Receive.{
  frame, recv_frame, recv_prefix, recv_rest, recv_header, recv_body,
}

-- However the length arrives, it is put together.
recv_length :
    (input : Input) (a rest : List ℕ)
    → Lively input
    → flat input ≡ a ++ rest
    → length a ≡ 4
    → (left : Input) × (recv_frame false input ≡ recv_rest a left)
      × (flat left ≡ rest)
      × Lively left
unfolding recv_frame recv_prefix
recv_length [] a rest v e size = absurd (omega (arith, ap length e, length-append a rest))
recv_length (p ∷ ps) a rest v e size =
    let r = read 4 (p ∷ ps) in
    let f = read-Front 4 p ps (omega arith) v in
    let k : ℕ = length r.0 in
    let found : (k == 0) ≡ false = ground (arith, f.some_bytes) in
    let got : r.0 ≡ take k a =
      f.got ∙ ap (take k) e ∙ take-append k a rest (omega (arith, f.few)) in
    let behind : flat r.1 ≡ drop k a ++ rest =
      f.left ∙ ap (drop k) e ∙ drop-append k a rest (omega (arith, f.few)) in
    elim (Bool-cases (k == 4)) [
      | inl whole ↦
          let all : k ≡ length a = ==→≡ k 4 whole ∙ sym size in
          (
            r.1,
            rw (found, whole, recv_prefix)
                (ap (λ bs. recv_rest bs r.1) (got ∙ take_all k a (omega (arith, all)))),
            f.left ∙ ap (drop k) e ∙ ap (λ n. drop n (a ++ rest)) all ∙ drop-append-length a rest,
            f.lively,
          )
      | inr part ↦
          let (left, more, after, lively) =
            read_exact-front (4 - k) r.1 (drop k a) rest f.lively behind
              (length-drop k a ∙ ap (λ n. n - k) size) in
          (
            left,
            rw (found, part, recv_prefix, more)
                (ap (λ bs. recv_rest (bs ++ drop k a) left) got
                  ∙ ap (λ bs. recv_rest bs left) (take-append-drop k a)),
            after,
            lively,
          )
    ]

-- The bytes of a frame are received as its records.
recv_frame-front :
    (hdr : WireFrameHeader) (records : List (List ℕ)) (rest : List ℕ) (input : Input)
    → IsHeader hdr
    → hdr.count ≡ length records
    → AllSized summary_size records
    → Lively input
    → flat input ≡ frame_bytes summary_size hdr records ++ rest
    → (left : Input) × (recv_frame false input ≡ frame (map decode_summary records) left)
      × (flat left ≡ rest)
      × Lively left
unfolding recv_rest recv_header recv_body
recv_frame-front hdr records rest input h c sized v e =
    let n : ℕ = (header_size + hdr.count * summary_size) % 2 ^ 32 in
    let body = encode_header hdr ++ joined records in
    let (input1, got1, e1, v1) =
      recv_length input (le 4 n) (body ++ rest) v (e ∙ append_assoc (le 4 n) body rest)
        (length-le 4 n) in
    let (input2, got2, e2, v2) =
      read_exact-front header_size input1 (encode_header hdr) (joined records ++ rest) v1
        (e1 ∙ append_assoc (encode_header hdr) (joined records) rest)
        (length-encode_header hdr h) in
    let (left, got3, e3, v3) = read_records-front summary_size records rest input2 sized v2 e2 in
    let size_read : (word 4 (le 4 n)).0 ≡ n = word-prefix n (omega arith) in
    let enough : ltb (word 4 (le 4 n)).0 header_size ≡ false =
      rw size_read (ground (arith, h.count_fits)) in
    let records_read : read_records (decode_header (encode_header hdr)).count summary_size input2
        ≡ (records, some left) =
      ap (λ (d : WireFrameHeader). read_records d.count summary_size input2)
        (decode-encode_header hdr h)
      ∙ ap (λ k. read_records k summary_size input2) c
      ∙ got3 in
    (left, got1 ∙ rw (enough, got2, recv_header, records_read) refl, e3, v3)

module _ (fl : Float32) where
  abbrev wire_summary : TrackState fl.F → List ℕ
  wire_summary t = encode_summary (fill_summary fl t)

  -- Tracks whose summaries fit their fields.
  abbrev pub AllSummaries : List (TrackState fl.F) → Type 0
  AllSummaries [] = Unit {0}
  AllSummaries (t ∷ ts) = IsSummary (fill_summary fl t) × AllSummaries ts

  summaries-AllSized :
      (ts : List (TrackState fl.F)) → AllSummaries ts → AllSized summary_size (map wire_summary ts)
  summaries-AllSized [] h = tt
  summaries-AllSized (t ∷ ts) h =
      (length-encode_summary (fill_summary fl t) h.0, summaries-AllSized ts h.1)

  decode-summaries :
      (ts : List (TrackState fl.F))
      → AllSummaries ts
      → map decode_summary (map wire_summary ts) ≡ map (fill_summary fl) ts
  decode-summaries [] h = refl
  decode-summaries (t ∷ ts) h =
      rw (decode-encode_summary (fill_summary fl t) h.0, decode-summaries ts h.1)

  -- A frame that the temporal service published whole, of tracks whose summaries fit their fields,
  -- is received as the summaries of exactly these tracks, however its bytes arrive, the four of the
  -- length included; the input is left at the next frame.
  pub recv_frame-publish_frame :
      (hdr : WireFrameHeader) (tracks : List (TrackState fl.F)) (sends rest : List ℕ)
      (input : Input)
      → IsHeader hdr
      → AllSummaries tracks
      → length tracks < 2 ^ 16
      → (publish_frame fl hdr tracks sends).ok ≡ true
      → Lively input
      → flat input ≡ (publish_frame fl hdr tracks sends).bytes ++ rest
      → (left : Input) × (recv_frame false input ≡ frame (map (fill_summary fl) tracks) left)
        × (flat left ≡ rest)
        × Lively left
  unfolding publish_frame
  recv_frame-publish_frame hdr tracks sends rest input h fit few done v e =
      let n : ℕ = length tracks in
      let whole : n % 2 ^ 16 ≡ n = omega arith in
      let out : WireFrameHeader = record hdr { count = n } in
      let records = map wire_summary tracks in
      let same =
        ap (λ k. send_frame_of summary_size n (record hdr { count = k }) records sends) whole in
      let sent =
        Writes-ok (send_frame_of-Writes summary_size out records sends)
          (sym (ap (λ (s : Sent). s.ok) same) ∙ done) in
      let (left, got, after, lively) =
        recv_frame-front out records rest input
          (record {
            frame_id_fits = h.frame_id_fits;
            timestamp_fits = h.timestamp_fits;
            count_fits = few;
            reserved_size = h.reserved_size;
          })
          (sym (length-map tracks wire_summary)) (summaries-AllSized tracks fit) v
          (e ∙ ap (λ (s : Sent). s.bytes ++ rest) same ∙ ap (λ bs. bs ++ rest) sent) in
      (left, got ∙ ap (λ l. frame l left) (decode-summaries tracks fit), after, lively)
