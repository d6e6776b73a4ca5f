-- ===== src/Service/Frames.antt =====
-- service.cpp and cdmi-stub: what a request that is no release, and what a thread, leaves as it was.
use open_content_decryption.Base.{
  ℕ, ◌≡◌, refl, ◌∙◌, Bool, true, Bytes, arith, get_elem?, inl, inr, Option-cases, Bool-cases,
}
use open_content_decryption.Base.Int.{ℤ, pos, eqb_ℤ}
use open_content_decryption.Base.Outcome.{Outcome, ok}
use open_content_decryption.World.{World, Ptr, EngineSession, Platform, deref, free_buffer, ◌>>=◌}
use open_content_decryption.World.Bind.{>>=-eq-ok}
use open_content_decryption.Callbacks.{
  on_key_status_update, on_key_message, on_key_ready, do_callback,
}
use open_content_decryption.MediaKeySession.{
  update, take_keys, report_status, run_thread, release_clear_content, decrypt, decrypt_first,
  decrypt_with, Decrypted,
}
use open_content_decryption.MediaKeys.{engine_decrypt, engine_release_clear_content}
use open_content_decryption.SampleLoop.{
  Exchange, Round, finished, is_end, release_previous, copy_back, write_back, copy_out, read_buffer,
  decrypt_mapped, exchange, decrypt_round,
}
use open_content_decryption.Service.{rpc_update}
use open_content_decryption.Service.Invariant.{Leaves}

pub rpc_update-Leaves :
    (platform : Platform) (sid key : Bytes) (starts : Bool) (w w' : World) (r : ℤ)
    → rpc_update platform sid key starts w ≡ ok (r, w')
    → Leaves sid w w'
unfolding rpc_update update take_keys report_status on_key_status_update do_callback deref
rpc_update-Leaves platform sid key starts w w' r h = ground arith

-- A change of the rest of the state.
pub record Frames (w w' : World) : Type 0 where
  pub objects : w'.key_sessions ≡ w.key_sessions
  pub sessions : w'.media_key_sessions ≡ w.media_key_sessions
  pub counter : w'.session_cnt ≡ w.session_cnt
  pub factory : w'.media_keys ≡ w.media_keys
  pub answer : w'.create_session_cr ≡ w.create_session_cr
  pub engines : w'.media_engine_sessions ≡ w.media_engine_sessions
  pub threads : w'.threads ≡ w.threads
  pub keys : w'.g_keys ≡ w.g_keys

pub run_thread-Frames :
    (connects : ℕ → Bool) (i : ℕ) (p : Ptr) (w w' : World)
    → run_thread connects i p w ≡ ok (tt, w')
    → Frames w w'
unfolding run_thread on_key_message on_key_ready do_callback deref
run_thread-Frames connects i p w w' h = ground arith

pub release_previous-Frames :
    (e : EngineSession) (w w' : World) → release_previous e w ≡ ok (tt, w') → Frames w w'
unfolding release_previous engine_release_clear_content release_clear_content deref free_buffer
release_previous-Frames e w w' h = ground arith

pub decrypt-Frames :
    (platform : Platform) (iv sample : Bytes) (b : Bool) (w w' : World) (d : Decrypted)
    → decrypt platform iv sample b w ≡ ok (d, w')
    → Frames w w'
unfolding decrypt decrypt_first decrypt_with free_buffer
decrypt-Frames platform iv sample b w w' d h = ground arith

copy_back-Frames :
    (sample : Bytes) (d : Decrypted) (w w' : World) (r : Round)
    → copy_back sample d w ≡ ok (r, w')
    → Frames w w'
unfolding copy_back write_back copy_out read_buffer
copy_back-Frames sample d w w' r h = ground arith

pub Frames-trans : (w1 w2 w3 : World) → Frames w1 w2 → Frames w2 w3 → Frames w1 w3
Frames-trans w1 w2 w3 f g = record {
  objects = g.objects ∙ f.objects;
  sessions = g.sessions ∙ f.sessions;
  counter = g.counter ∙ f.counter;
  factory = g.factory ∙ f.factory;
  answer = g.answer ∙ f.answer;
  engines = g.engines ∙ f.engines;
  threads = g.threads ∙ f.threads;
  keys = g.keys ∙ f.keys;
}

pub Frames-refl : (w : World) → Frames w w
Frames-refl w = record {
  objects = refl;
  sessions = refl;
  counter = refl;
  factory = refl;
  answer = refl;
  engines = refl;
  threads = refl;
  keys = refl;
}

decrypt_mapped-Frames :
    (platform : Platform) (e : EngineSession) (x : Exchange) (w w' : World) (r : Round)
    → decrypt_mapped platform e x w ≡ ok (r, w')
    → Frames w w'
unfolding decrypt_mapped engine_decrypt
decrypt_mapped-Frames platform e x w w' r h =
    let (_, w1, released, h1) =
      >>=-eq-ok (release_previous e)
        (λ _. engine_decrypt platform e x.iv x.sample >>= copy_back x.sample) w h in
    let (d, w2, done, h2) =
      >>=-eq-ok (engine_decrypt platform e x.iv x.sample) (copy_back x.sample) w1 h1 in
    Frames-trans w w1 w' (release_previous-Frames e w w1 released) (
      Frames-trans w1 w2 w' (decrypt-Frames platform x.iv x.sample true w1 w2 d done)
        (copy_back-Frames x.sample d w2 w' r h2))

same_state :
    (w w' : World) (a b : Round)
    → ◌≡◌ {A = Outcome (Round × World)} (ok (a, w)) (ok (b, w'))
    → Frames w w'
same_state w w' a b h = ground arith

exchange-Frames :
    (platform : Platform) (e : EngineSession) (x : Exchange) (w w' : World) (r : Round)
    → exchange platform e x w ≡ ok (r, w')
    → Frames w w'
unfolding exchange
exchange-Frames platform e x w w' r h = elim (Bool-cases (is_end x)) [
  | inl end ↦ same_state w w' finished r (rw end at h)
  | inr more ↦ elim (Bool-cases (eqb_ℤ x.id_iv_shmem (pos 0))) [
    | inl unmapped ↦ cc (rw (more, unmapped) at h)
    | inr iv ↦ elim (Bool-cases (eqb_ℤ x.id_sample_shmem (pos 0))) [
      | inl unmapped ↦ cc (rw (more, iv, unmapped) at h)
      | inr sample ↦ decrypt_mapped-Frames platform e x w w' r (rw (more, iv, sample) at h)
    ]
  ]
]

-- Decrypting a sample changes the buffers alone.
pub decrypt_round-Frames :
    (platform : Platform) (idx : ℕ) (x : Exchange) (w w' : World) (r : Round)
    → decrypt_round platform idx x w ≡ ok (r, w')
    → Frames w w'
unfolding decrypt_round
decrypt_round-Frames platform idx x w w' r h =
    elim (Option-cases (get_elem? w.media_engine_sessions idx)) [
      | inl missing ↦ ground arith
      | inr (e, here) ↦ ground (arith, exchange-Frames platform e x w w' r)
    ]
