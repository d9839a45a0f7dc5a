-- ===== src/Controller/Becomes.antt =====
-- groove/proxy/controller.go: what a call of the control API makes of the recorder.
use grooveproxy.Base.{
  same_text, ◌≡◌, refl, sym, ◌∙◌, ap, subst, true, false, not, ◌||◌, List, [], ◌∷◌, map, String,
  Result, ok, err, if◌then◌else◌, arith, Result-cases, inl, inr,
}
use grooveproxy.Controller.{
  Upload, Call, missing, unopened, file, post_tape_record, post_tape_stop, post_cache_clear,
  post_tape_retrieve, post_tape_clear, post_tape_load, post_cache_mode, post_dialer_load,
}
use grooveproxy.Controller.RecordReplay.{targets-append_records}
use grooveproxy.Recorder.{
  Recorder, Pointer, RecordedRecord, TapeFormat, RecorderMode, recorder_mode_off,
  recorder_mode_read, recorder_mode_write, append_records, load_data, clear, clear_tape_id,
  is_consumed,
}
use grooveproxy.Recorder.Invariant.{
  IsWellFormed, append_records-IsWellFormed, clear-IsWellFormed, clear_tape_id-IsWellFormed,
}
use grooveproxy.Recorder.Recording.{mode-append_records}
use grooveproxy.Recorder.Sessions.{on_tape, append_records-playable, load-read}
use grooveproxy.Recorder.Tape.{fits, playable}
use grooveproxy.Recorder.Tapes.{clear_tape_id-playable}
use grooveproxy.Slices.Filter.{keep, filter_slice-keep}

abbrev targets : List Pointer → List RecordedRecord
targets ps = map (λ p. p.target) ps

keep-targets :
    (t : String) (ps : List Pointer)
    → targets (keep (λ p. not (same_text p.target.tape_id t)) ps)
      ≡ keep (λ x. not (same_text x.tape_id t)) (targets ps)
unfolding keep
keep-targets t [] = refl
keep-targets t (p ∷ ps) = ground (arith, keep-targets t ps)

-- Specification: a recording writes, a load reads, and a stop ends both.
abbrev pub mode_after : {Bytes : Type 0} → RecorderMode → Call Bytes → RecorderMode
mode_after m post_tape_record = recorder_mode_write
mode_after m post_tape_stop = recorder_mode_off
mode_after m (post_tape_load upload) = recorder_mode_read
mode_after m (post_tape_retrieve request) = m
mode_after m (post_tape_clear request) = m
mode_after m (post_cache_mode request) = m
mode_after m post_cache_clear = m
mode_after m (post_dialer_load uuid request) = m

module _ {Bytes : Type 0} (format : TapeFormat Bytes) where
  -- The records of an uploaded file; a file that is not gzip has none.
  abbrev decoded : Result Bytes → List RecordedRecord
  decoded (err e) = []
  decoded (ok json) = format.unmarshal json

  abbrev pub uploaded : Upload Bytes → List RecordedRecord
  uploaded missing = []
  uploaded unopened = []
  uploaded (file bytes) = decoded (format.gunzip bytes)

  -- Specification: all records that a retrieval can export.
  abbrev pub records_after : List RecordedRecord → Call Bytes → List RecordedRecord
  records_after xs post_tape_record = []
  records_after xs (post_tape_load upload) = uploaded upload
  records_after xs (post_tape_clear (err e)) = xs
  records_after xs (post_tape_clear (ok t)) =
      if same_text t "" then [] else keep (λ x. not (same_text x.tape_id t)) xs
  records_after xs post_tape_stop = xs
  records_after xs (post_tape_retrieve request) = xs
  records_after xs (post_cache_mode request) = xs
  records_after xs post_cache_clear = xs
  records_after xs (post_dialer_load uuid request) = xs

  -- Specification: the records of a tape and an address that are left to play.
  abbrev pub left_after : String → String → List RecordedRecord → Call Bytes → List RecordedRecord
  left_after t u xs post_tape_record = []
  left_after t u xs (post_tape_load upload) = keep (on_tape t u) (uploaded upload)
  left_after t u xs (post_tape_clear (err e)) = xs
  left_after t u xs (post_tape_clear (ok cleared)) =
      if same_text cleared "" || same_text t cleared then [] else xs
  left_after t u xs post_tape_stop = xs
  left_after t u xs (post_tape_retrieve request) = xs
  left_after t u xs (post_cache_mode request) = xs
  left_after t u xs post_cache_clear = xs
  left_after t u xs (post_dialer_load uuid request) = xs

  -- What a recorder becomes by a call.
  pub record Becomes (call : Call Bytes) (r r' : Recorder) : Type 0 where
    pub mode : r'.mode ≡ mode_after r.mode call
    pub records : targets r'.records ≡ records_after (targets r.records) call
    pub left :
        (t u : String) → targets (playable r' t u) ≡ left_after t u (targets (playable r t u)) call
    pub well_formed : IsWellFormed r'

  pub stays :
      (call : Call Bytes) (r : Recorder)
      → mode_after r.mode call ≡ r.mode
      → records_after (targets r.records) call ≡ targets r.records
      → ((t u : String) → left_after t u (targets (playable r t u)) call ≡ targets (playable r t u))
      → IsWellFormed r
      → Becomes call r r
  stays call r mode records left w = record {
    mode = sym mode;
    records = sym records;
    left = λ t u. sym (left t u);
    well_formed = w;
  }

  pub records-Becomes :
      (r : Recorder) → Becomes post_tape_record r (clear (record r { mode = recorder_mode_write }))
  unfolding clear playable keep
  records-Becomes r = record {
    mode = refl;
    records = refl;
    left = λ t u. refl;
    well_formed = clear-IsWellFormed (record r { mode = recorder_mode_write });
  }

  pub stop-Becomes :
      (r : Recorder)
      → IsWellFormed r
      → Becomes post_tape_stop r (record r { mode = recorder_mode_off })
  unfolding playable fits is_consumed
  stop-Becomes r w = record {
    mode = refl;
    records = refl;
    left = λ t u. refl;
    well_formed = record {
      ascending = w.ascending;
      consumed_old = w.consumed_old;
      consumed_tape = w.consumed_tape;
    };
  }

  -- A load, whatever the records of its file are.
  pub loads-Becomes :
      (r : Recorder) (upload : Upload Bytes) (xs : List RecordedRecord)
      → uploaded upload ≡ xs
      → Becomes
          (post_tape_load upload)
          r
          (append_records (clear (record r { mode = recorder_mode_read })) xs)
  unfolding clear playable keep
  loads-Becomes r upload xs is =
      let r0 : Recorder = clear (record r { mode = recorder_mode_read }) in
      record {
        mode = mode-append_records r0 xs;
        records = targets-append_records r0 xs ∙ sym is;
        left = λ t u.
            append_records-playable r0 xs t u
              (clear-IsWellFormed (record r { mode = recorder_mode_read }))
            ∙ ap (keep (on_tape t u)) (sym is);
        well_formed =
            append_records-IsWellFormed r0 xs
              (clear-IsWellFormed (record r { mode = recorder_mode_read }));
      }

  load-err :
      (r : Recorder) (bytes : Bytes) (e : String)
      → format.gunzip bytes ≡ err e
      → (load_data format r bytes).0 ≡ r
  unfolding load_data
  load-err r bytes e bad = ground (arith, bad)

  pub load_file-Becomes :
      (r : Recorder) (bytes : Bytes)
      → Becomes
          (post_tape_load (file bytes))
          r
          (load_data format (clear (record r { mode = recorder_mode_read })) bytes).0
  unfolding append_records clear
  load_file-Becomes r bytes =
      let r0 : Recorder = clear (record r { mode = recorder_mode_read }) in
      elim (Result-cases (format.gunzip bytes)) [
        | inl (e, bad) ↦
            subst (λ x. Becomes (post_tape_load (file bytes)) r x) (sym (load-err r0 bytes e bad))
              (loads-Becomes r (file bytes) [] (ap decoded bad))
        | inr (json, good) ↦
            subst (λ x. Becomes (post_tape_load (file bytes)) r x)
              (sym (ap (λ x. x.0) (load-read format r0 bytes json good)))
              (loads-Becomes r (file bytes) (format.unmarshal json) (ap decoded good))
      ]

  pub clear_all-Becomes :
      (r : Recorder) (t : String)
      → same_text t "" ≡ true
      → Becomes (post_tape_clear (ok t)) r (clear r)
  unfolding clear playable keep
  clear_all-Becomes r t every = record {
    mode = refl;
    records = rw every refl;
    left = λ t u. rw every refl;
    well_formed = clear-IsWellFormed r;
  }

  pub clear_one-Becomes :
      (r : Recorder) (t : String)
      → same_text t "" ≡ false
      → IsWellFormed r
      → Becomes (post_tape_clear (ok t)) r (clear_tape_id r t)
  unfolding clear_tape_id
  clear_one-Becomes r t one w = record {
    mode = refl;
    records =
        rw (one, filter_slice-keep r.records (λ p. not (same_text p.target.tape_id t)))
          (keep-targets t r.records);
    left = λ t' u. ap targets (clear_tape_id-playable r t t' u w) ∙ rw one (ground arith);
    well_formed = clear_tape_id-IsWellFormed r t w;
  }
