-- ===== src/Service/Buffers.antt =====
-- service.cpp: requests and threads that leave the buffers of clear samples alone.
use open_content_decryption.Base.{ℕ, ◌≡◌, refl, ◌++◌, ap, ◌∙◌, Bool, Bytes, arith, get_elem?}
use open_content_decryption.Base.Int.{ℤ}
use open_content_decryption.Base.Outcome.{ok}
use open_content_decryption.World.{World, Ptr, Platform, deref}
use open_content_decryption.World.Slots.{live_count}
use open_content_decryption.Callbacks.{
  on_key_status_update, on_key_message, on_key_ready, do_callback,
}
use open_content_decryption.MediaKeySession
use open_content_decryption.MediaKeySession.{
  take_keys, report_status, run_thread, run, get_session_id, new_session, close,
  release_clear_content, decrypt, Decrypted,
}
use open_content_decryption.MediaKeys.{keys_made}
use open_content_decryption.SampleLoop.Rounds.{Holds, nothing, current}
use open_content_decryption.Service.{rpc_update}
use open_content_decryption.Service.Create.{HasRoom, created}
use open_content_decryption.Service.Histories.{ByRequests, IsRequest, Request-Kept}
use open_content_decryption.Service.Invariant.{Inv, released}
use open_content_decryption.Service.Requests.{touched, engine_made}
use open_content_decryption.Service.Steps.{Step, thread_number}

-- A change that is not of the buffers.
pub record SameBuffers (w w' : World) : Type 0 where
  pub buffers : w'.buffers ≡ w.buffers
  pub clear : w'.clear_content ≡ w.clear_content

pub same_Holds : (w w' : World) → SameBuffers w w' → Holds w → Holds w'
same_Holds w w' s (nothing a b) = nothing (s.clear ∙ a) (ap live_count s.buffers ∙ b)
same_Holds w w' s (current b bytes a c d) =
    current b bytes (s.clear ∙ a) (ap (λ xs. get_elem? xs b) s.buffers ∙ c)
      (ap live_count s.buffers ∙ d)

pub update_same :
    (platform : Platform) (sid key : Bytes) (starts : Bool) (w w' : World) (r : ℤ)
    → rpc_update platform sid key starts w ≡ ok (r, w')
    → SameBuffers w w'
unfolding rpc_update open_content_decryption.MediaKeySession.update take_keys report_status
    on_key_status_update do_callback deref
update_same platform sid key starts w w' r h = ground arith

pub run_thread_same :
    (connects : ℕ → Bool) (i : ℕ) (p : Ptr) (w w' : World)
    → run_thread connects i p w ≡ ok (tt, w')
    → SameBuffers w w'
unfolding run_thread on_key_message on_key_ready do_callback deref
run_thread_same connects i p w w' h = ground arith

-- A property of the buffers alone.
pub SameBuffers-ByRequests :
    (platform : Platform) (P : World → Type 0)
    → ((w w' : World) → SameBuffers w w' → P w → P w')
    → ByRequests platform P
unfolding created released engine_made
SameBuffers-ByRequests platform P same = record {
  by_mediakeys = λ w. same w (keys_made w) (record { buffers = refl; clear = refl });
  by_create = λ prog_num starts w v.
      same w (created prog_num starts w) (record { buffers = refl; clear = refl });
  by_refusal =
      λ prog_num w. same w (record w { pnum = prog_num }) (record { buffers = refl; clear = refl });
  by_update = λ sid key starts w w' r h v. same w w' (update_same platform sid key starts w w' r h);
  by_release =
      λ sid p w found v. same w (released sid p w) (record { buffers = refl; clear = refl });
  by_miss = λ sid w. same w (touched sid w) (record { buffers = refl; clear = refl });
  by_mediaengine = λ sid shmem sem w v.
      same w (engine_made sid shmem sem w) (record { buffers = refl; clear = refl });
  by_thread = λ before behind task p w w' split h holds.
      let u = record w { threads = before ++ behind } in
      let s = run_thread_same platform.connects (thread_number task) p u w' h in
      same w w' (record { buffers = s.buffers; clear = s.clear }) holds;
}

-- A request or a thread leaves the buffers alone.
pub Request-SameBuffers :
    (platform : Platform) (w w' : World) (s : Step platform w w')
    → HasRoom platform.usable
    → IsRequest s
    → Inv w
    → SameBuffers w w'
Request-SameBuffers platform w w' s room other v =
    Request-Kept platform room (SameBuffers w) w w' s other
      (SameBuffers-ByRequests platform (SameBuffers w)
        (λ u u' f g. record { buffers = f.buffers ∙ g.buffers; clear = f.clear ∙ g.clear }))
      v (record { buffers = refl; clear = refl })
