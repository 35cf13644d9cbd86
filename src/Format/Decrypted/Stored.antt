-- ===== src/Format/Decrypted/Stored.antt =====
-- The decrypted device of core/vc-format/src/decrypted.rs keeps the promises of the trait
-- `BlockDevice`, so that a device which wraps it can rely on them.
use vault_pony_core.Prelude.{refl, sym, ap, length, arith}
use vault_pony_core.Types.Error.{ok}
use vault_pony_core.Device.{BlockDevice}
use vault_pony_core.Device.Store.{IsStore, RefusesPastEnd}
use vault_pony_core.Crypto.Xts.{XtsMode}
use vault_pony_core.Crypto.Xts.RoundTrip.{IsXts}
use vault_pony_core.Format.Decrypted.{DecryptedDevice, decrypted_device}
use vault_pony_core.Format.Decrypted.Read.{
  IsLive, Same, view, length-view, read_at-Same, read_at-view,
}
use vault_pony_core.Format.Decrypted.Write.{
  write_at-IsWritten, view-write_at, Same-view, refused_past_end,
}

module _ (x : XtsMode) (laws : IsXts x) (d : BlockDevice) (store : IsStore d)
    (v : DecryptedDevice) where
  pub Same-flush : (s : d.State) → IsLive x laws d store v s → Same x laws d store v s (d.flush s).1
  Same-flush s l = record {
    live = record {
      live = store.flush_live s l.live;
      small = rw (store.flush_keeps s l.live) l.small;
      whole = rw (store.flush_keeps s l.live) l.whole;
      inside = rw (store.flush_keeps s l.live) l.inside;
    };
    content = store.flush_keeps s l.live;
  }

  abbrev pub decrypted_device-IsStore : IsStore (decrypted_device x d v)
  decrypted_device-IsStore = record {
    IsLive = IsLive x laws d store v;
    content = view x laws d store v;
    len_value = λ s l. ap ok (sym (length-view x laws d store v s l));
    len_live = λ s l. l;
    len_keeps = λ s l. refl;
    read_value = λ s off n l h.
        read_at-view x laws d store v s off n l (omega (arith, length-view x laws d store v s l));
    read_live = λ s off n l. (read_at-Same x laws d store v s off n l).live;
    read_keeps =
        λ s off n l. Same-view x laws d store v s _ (read_at-Same x laws d store v s off n l);
    write_value = λ s off b l h.
        (write_at-IsWritten x laws d store v s off b l
          (omega (arith, length-view x laws d store v s l))).value;
    write_live = λ s off b l h.
        (write_at-IsWritten x laws d store v s off b l
          (omega (arith, length-view x laws d store v s l))).live;
    write_content = λ s off b l h.
        (view-write_at x laws d store v s off b l
          (omega (arith, length-view x laws d store v s l))).1;
    flush_value = λ s l. store.flush_value s l.live;
    flush_live = λ s l. (Same-flush s l).live;
    flush_keeps = λ s l. Same-view x laws d store v s _ (Same-flush s l);
  }

  abbrev pub decrypted_device-RefusesPastEnd :
      RefusesPastEnd (decrypted_device x d v) decrypted_device-IsStore
  decrypted_device-RefusesPastEnd = record {
    write_refused = λ s off b l h.
        ap (λ r. r.1)
          (refused_past_end x laws d store v s off (length b) b
            (omega (arith, length-view x laws d store v s l)) refl).1;
  }
