-- ===== src/Session/Registry/Starting.antt =====
-- session.go, newSession and serve: the registry of streams from the start of a session.
use h2stream.Prelude.{
  ℕ, ◌≡◌, refl, Bool, true, false, Option, none, List, inl, arith, Run, ok, Post, Post-bind,
  Post-if, Post-ok,
}
use Prim.Native.String.{String}
use h2stream.Errors.{Error}
use h2stream.Frame.{Setting}
use h2stream.Pipe.{PipeBuffer}
use h2stream.Session.{Session, WriteScheduler, Net}
use h2stream.Session.Schedule.{schedule_frame_write}
use h2stream.Session.Writing.{write_frame}
use h2stream.Session.Starting.{SessionConfig, Greeting, first_settings, new_session, handshake}
use h2stream.Session.Registry.{IsSession}
use h2stream.Session.Registry.Writing.{write_frame-Post, send_window_update-Post}
use h2stream.Session.Registry.Scheduling.{schedule_frame_write-Keeps}
use h2stream.Session.Registry.Serving.{Reaches, Reaches-IsSession}

module _ (pb : PipeBuffer) (ws : WriteScheduler) (net : ℕ → Net) (valid : Setting → Option Error)
    (canonical : String → String) (fuel : ℕ) where
  abbrev Sess : Type 0
  Sess = Session pb.Buf ws.Sched

  new_session-IsSession :
      (server handler : Bool) (config : SessionConfig) (sched : ws.Sched) (buffer : pb.Buf)
      → IsSession (new_session pb ws server handler config sched buffer)
  unfolding new_session
  new_session-IsSession server handler config sched buffer = record {
    unique = tt;
    objects_fit = λ id. refl;
    client_counted = refl;
    pushed_counted = refl;
    numbered = (omega arith, omega arith, inl refl, refl);
  }

  abbrev again : Sess → Run Sess
  again = schedule_frame_write pb ws net fuel

  handshake-Post :
      (preface : List ℕ) (s : Sess) (g : Greeting)
      → IsSession s
      → Post (handshake pb ws again preface s g) (λ (_, t). IsSession t)
  unfolding handshake
  handshake-Post preface s g v =
      let keeps = schedule_frame_write-Keeps pb ws net fuel in
      Post-if (λ (_, t). IsSession t) _ _ (ok (false, s))
        (Post-bind IsSession (λ (_, t). IsSession t)
          (write_frame ws again s (first_settings pb ws s)) _
          (write_frame-Post ws again keeps s (first_settings pb ws s) v)
          (λ s' v'.
            Post-bind IsSession (λ (_, t). IsSession t) _ (λ t. ok (true, t))
              (Post-if IsSession _ _ (ok _) (send_window_update-Post ws again keeps _ none _ v') v')
              (λ t w. w)))
        v

  -- A session that newSession makes and whose handshake succeeds reaches, by rounds of the serve loop
  -- with plain events, only sessions that keep the registry of their streams.
  pub handshake-IsSession :
      (server handler : Bool) (config : SessionConfig) (sched : ws.Sched) (buffer : pb.Buf)
      (preface : List ℕ) (g : Greeting) (s t : Sess)
      → handshake pb ws again preface (new_session pb ws server handler config sched buffer) g
        ≡ ok (true, s)
      → Reaches pb ws net valid canonical fuel s t
      → IsSession t
  handshake-IsSession server handler config sched buffer preface g s t e r =
      Reaches-IsSession pb ws net valid canonical fuel s t
        (Post-ok (λ (_, t). IsSession t)
          (handshake pb ws again preface (new_session pb ws server handler config sched buffer) g)
          (true, s)
          (handshake-Post preface (new_session pb ws server handler config sched buffer) g
            (new_session-IsSession server handler config sched buffer))
          e)
        r
