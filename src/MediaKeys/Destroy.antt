-- ===== src/MediaKeys/Destroy.antt =====
-- cdmi-stub/mediakeys.cpp: `CreateMediaKeySession` and `DestroyMediaKeySession`, one after the other.
use open_content_decryption.Base.{
  ℕ, ◌+◌, ◌≡◌, ◌<◌, ◌^◌, ◌%◌, refl, some, true, false, ◌++◌, ◌∷◌, [], length, arith, get_elem?, set,
  subst, length-append,
}
use open_content_decryption.Base.Outcome.{ok, fault, double_free, use_after_free}
use open_content_decryption.Decimal.{decimal}
use open_content_decryption.MediaKeySession.{get_session_id, get_key_system}
use open_content_decryption.MediaKeys.{
  create_media_key_session, destroy_media_key_session, create_media_keys, keys_made,
  destroy_media_keys,
}
use open_content_decryption.Service.Create.{HasRoom, create_lem, new_slot}
use open_content_decryption.World.{
  World, Ptr, Slot, KeySession, cdmi_success, deref, free_session, ◌>>=◌,
}
use open_content_decryption.World.Slots.{
  live_count, live_count-concat, live_count-set, get_elem?-append_last, get_elem?-set_self,
}

-- What `delete` does to a live object.
pub destroy_live :
    (w : World) (p : Ptr) (s : KeySession)
    → get_elem? w.key_sessions p ≡ some (record { content = s; live = true })
    → destroy_media_key_session (some p) w
      ≡ ok (
        cdmi_success,
        record w { key_sessions = set w.key_sessions p (record { content = s; live = false }) },
      )
unfolding destroy_media_key_session free_session
destroy_live w p s here = ground (arith, here)

-- And to one that is freed, which no member function may be called on either.
pub destroy_freed :
    (w : World) (p : Ptr) (s : KeySession)
    → get_elem? w.key_sessions p ≡ some (record { content = s; live = false })
    → (destroy_media_key_session (some p) w ≡ fault double_free)
      × (get_session_id p w ≡ fault use_after_free)
      × (get_key_system p w ≡ fault use_after_free)
unfolding destroy_media_key_session free_session get_session_id get_key_system deref
destroy_freed w p s here = (ground (arith, here), ground (arith, here), ground (arith, here))

-- A `CMediaKeys` can be destroyed once. Made twice, as two requests for it do, the first object stays and
-- only the last one is pointed to: destroying that one leaves one more object than before.
pub destroy_media_keys_lem :
    (w : World)
    → (w' : World) × ((create_media_keys >>= λ _.
            create_media_keys >>= λ _. destroy_media_keys (some (length w.media_keys_objects + 1)))
          w
        ≡ ok (cdmi_success, w'))
      × (live_count w'.media_keys_objects ≡ live_count w.media_keys_objects + 1)
      × (destroy_media_keys (some (length w.media_keys_objects + 1)) w' ≡ fault double_free)
unfolding destroy_media_keys create_media_keys
destroy_media_keys_lem w =
    let made : Slot (Unit {0}) = record { content = tt; live = true } in
    let one = w.media_keys_objects ++ made ∷ [] in
    let last = length w.media_keys_objects + 1 in
    let here : get_elem? (one ++ made ∷ []) last ≡ some made =
      subst (λ n. get_elem? (one ++ made ∷ []) n ≡ some made)
        (length-append w.media_keys_objects (made ∷ [])) (get_elem?-append_last one made) in
    let dead : Slot (Unit {0}) = record { content = tt; live = false } in
    (
      record (keys_made (keys_made w)) { media_keys_objects = set (one ++ made ∷ []) last dead },
      ground (arith, here),
      omega (
        arith,
        live_count-set (one ++ made ∷ []) last made here refl,
        live_count-concat one tt,
        live_count-concat w.media_keys_objects tt,
      ),
      ground (arith, get_elem?-set_self (one ++ made ∷ []) last made dead here),
    )

-- With an allocator that leaves room and a counter in range: a session that was created can be
-- destroyed, once. There are then as many live sessions as before, to destroy it again frees it twice,
-- and a member function on it uses memory after it was freed.
pub create-destroy :
    (usable : ℕ → ℕ) (w : World)
    → HasRoom usable
    → w.session_cnt < 2 ^ 32
    → (p : Ptr) × (w1 : World) × (w2 : World) × (create_media_key_session usable w
        ≡ ok ((cdmi_success, p), w1))
      × (destroy_media_key_session (some p) w1 ≡ ok (cdmi_success, w2))
      × (live_count w2.key_sessions ≡ live_count w.key_sessions)
      × (destroy_media_key_session (some p) w2 ≡ fault double_free)
      × (get_session_id p w2 ≡ fault use_after_free)
      × (get_key_system p w2 ≡ fault use_after_free)
create-destroy usable w room small =
    let created_slot = new_slot (decimal w.session_cnt) in
    let p = length w.key_sessions in
    let here = get_elem?-append_last w.key_sessions created_slot in
    let dead : Slot KeySession = record created_slot { live = false } in
    let all = w.key_sessions ++ created_slot ∷ [] in
    let gone : World = record w {
      session_cnt = (w.session_cnt + 1) % 2 ^ 32;
      key_sessions = set all p dead;
    } in
    let (twice, named, asked) = destroy_freed gone p _ (get_elem?-set_self all p _ dead here) in
    (
      p,
      _,
      gone,
      create_lem usable w room small,
      destroy_live _ p _ here,
      omega (
        arith,
        live_count-set all p created_slot here refl,
        live_count-concat w.key_sessions created_slot.content,
      ),
      twice,
      named,
      asked,
    )
