-- ===== src/Controller/Taping.antt =====
-- groove/proxy/controller.go: the calls of the control API.
use grooveproxy.Base.{◌≡◌}
use grooveproxy.Controller.{
  State, Call, post_tape_record, post_tape_stop, post_cache_clear, post_tape_retrieve,
  post_tape_clear, post_tape_load, post_cache_mode, post_dialer_load,
}
use grooveproxy.Recorder.{TapeFormat}
use grooveproxy.Controller.Becomes.{Becomes}

module _ {Bytes : Type 0} (format : TapeFormat Bytes) where
  -- Specification: what a call leaves alone.
  abbrev pub Frame : {D : Type 0} → Call Bytes → State D → State D → Type 0
  Frame (post_tape_retrieve request) s s' = s' ≡ s
  Frame (post_cache_mode request) s s' =
      (s'.recorder ≡ s.recorder) × (s'.dialer_session ≡ s.dialer_session)
  Frame post_cache_clear s s' = (s'.recorder ≡ s.recorder) × (s'.dialer_session ≡ s.dialer_session)
  Frame (post_dialer_load uuid request) s s' = (s'.recorder ≡ s.recorder) × (s'.cache ≡ s.cache)
  Frame post_tape_record s s' = (s'.cache ≡ s.cache) × (s'.dialer_session ≡ s.dialer_session)
  Frame post_tape_stop s s' = (s'.cache ≡ s.cache) × (s'.dialer_session ≡ s.dialer_session)
  Frame (post_tape_load upload) s s' = (s'.cache ≡ s.cache) × (s'.dialer_session ≡ s.dialer_session)
  Frame (post_tape_clear request) s s' =
      (s'.cache ≡ s.cache) × (s'.dialer_session ≡ s.dialer_session)

  -- What a call makes of the state.
  pub record Controls {D : Type 0} (call : Call Bytes) (s s' : State D) : Type 0 where
    pub becomes : Becomes format call s.recorder s'.recorder
    pub frame : Frame call s s'
