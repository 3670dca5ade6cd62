-- ===== src/Store/Atomic/Moments.antt =====
-- internal/gateway/store/atomic.go: what a reader finds at each moment of WriteFileAtomic.
use Prim.Native.String.append as Append
use file_pubsub.Base.{
  String, ◌≡◌, ◌≢◌, refl, sym, ◌∙◌, ap, arith, Bool, true, false, Option, some, [], ◌++◌, string_eq,
  ok, eq_iff, ◌⊎◌,
}
use file_pubsub.Base.Dict
use file_pubsub.Base.Dict.{Dict, get-put, get-remove}
use file_pubsub.Store.World.{Bytes}
use file_pubsub.Store.Atomic.{
  Entry, file, Dir, temp_of, Phase, copying, copied, synced, closed, returned, Moment, Call, mkdir,
  create, write, finish, sync, close, rename, fail_mkdir, fail_open, fail_copy, fail_sync,
  fail_close, fail_rename, remove, fail_remove, Run, begin, next,
}

abbrev tail : String → String
tail String.[] = ""
tail (String.◌∷◌ c s) = s

abbrev is_nil : String → Bool
is_nil String.[] = true
is_nil (String.◌∷◌ c s) = false

temp_of-ne : (s : String) → temp_of s ≢ s
temp_of-ne String.[] h = let e : false ≡ true = ap is_nil h in absurd (ground arith)
temp_of-ne (String.◌∷◌ c s) h = temp_of-ne s (sym (ap tail (Append.cons c s ".tmp")) ∙ ap tail h)

module _ (dst : String) (content : Bytes) (before : Dir) where
  -- What the phase says of the temporary file.
  abbrev Temp : Dir → Phase → Type 0
  Temp d (copying done) = Dict.get d (temp_of dst) ≡ some (file done)
  Temp d copied = Dict.get d (temp_of dst) ≡ some (file content)
  Temp d synced = Dict.get d (temp_of dst) ≡ some (file content)
  Temp d closed = Dict.get d (temp_of dst) ≡ some (file content)
  Temp d _ = Unit

  -- What stands under the final name.
  abbrev target : Phase → Option Entry
  target (returned (ok _)) = some (file content)
  target _ = Dict.get before dst

  record Holds (m : Moment) : Type 0 where
    temp : Temp m.dir m.phase
    final : Dict.get m.dir dst ≡ target m.phase
    others :
        (name : String)
        → name ≢ dst
        → name ≢ temp_of dst
        → Dict.get m.dir name ≡ Dict.get before name

  -- A change of the temporary file alone.
  put_temp :
      (d : Dir) (e : Entry) (name : String)
      → name ≢ temp_of dst
      → Dict.get (Dict.put d (temp_of dst) e) name ≡ Dict.get d name
  put_temp d e name ne = ground (arith, get-put d (temp_of dst) name e, eq_iff (temp_of dst) name)

  remove_temp :
      (d : Dir) (name : String)
      → name ≢ temp_of dst
      → Dict.get (Dict.remove d (temp_of dst)) name ≡ Dict.get d name
  remove_temp d name ne = ground (arith, get-remove d (temp_of dst) name, eq_iff (temp_of dst) name)

  dst-ne : dst ≢ temp_of dst
  dst-ne h = temp_of-ne dst (sym h)

  Call-Holds :
      {d d' : Dir} {p p' : Phase}
      → Call dst content d p d' p'
      → Holds (record { dir = d; phase = p })
      → Holds (record { dir = d'; phase = p' })
  Call-Holds mkdir h = record { temp = tt; final = h.final; others = h.others }
  Call-Holds {d} create h = record {
    temp = Dict.get-put_self d (temp_of dst) (file []);
    final = put_temp d (file []) dst dst-ne ∙ h.final;
    others = λ name a b. put_temp d (file []) name b ∙ h.others name a b;
  }
  Call-Holds {d} (write {done} part rest e) h = record {
    temp = Dict.get-put_self d (temp_of dst) (file (done ++ part));
    final = put_temp d (file (done ++ part)) dst dst-ne ∙ h.final;
    others = λ name a b. put_temp d (file (done ++ part)) name b ∙ h.others name a b;
  }
  Call-Holds finish h = record { temp = h.temp; final = h.final; others = h.others }
  Call-Holds sync h = record { temp = h.temp; final = h.final; others = h.others }
  Call-Holds close h = record { temp = h.temp; final = h.final; others = h.others }
  Call-Holds {d} (rename {e} found) h = record {
    temp = tt;
    final = Dict.get-put_self (Dict.remove d (temp_of dst)) dst e ∙ sym found ∙ h.temp;
    others = λ name a b. ground (
      arith,
      get-put (Dict.remove d (temp_of dst)) dst name e,
      eq_iff dst name,
      remove_temp d name b,
      h.others name a b,
    );
  }
  Call-Holds fail_mkdir h = record { temp = tt; final = h.final; others = h.others }
  Call-Holds fail_open h = record { temp = tt; final = h.final; others = h.others }
  Call-Holds fail_copy h = record { temp = tt; final = h.final; others = h.others }
  Call-Holds fail_sync h = record { temp = tt; final = h.final; others = h.others }
  Call-Holds fail_close h = record { temp = tt; final = h.final; others = h.others }
  Call-Holds fail_rename h = record { temp = tt; final = h.final; others = h.others }
  Call-Holds {d} remove h = record {
    temp = tt;
    final = remove_temp d dst dst-ne ∙ h.final;
    others = λ name a b. remove_temp d name b ∙ h.others name a b;
  }
  Call-Holds fail_remove h = record { temp = tt; final = h.final; others = h.others }

  Run-Holds : {m : Moment} → Run dst content before m → Holds m
  Run-Holds begin = record { temp = tt; final = refl; others = λ name a b. refl }
  Run-Holds (next r c) = Call-Holds c (Run-Holds r)

  -- At every moment of an atomic write, whichever calls fail and wherever it is killed, the final
  -- name holds what it held before, or the write has returned without an error and the final name
  -- holds the whole content; no other file but the temporary one has changed.
  pub moments :
      {m : Moment}
      → Run dst content before m
      → ((Dict.get m.dir dst ≡ Dict.get before dst)
          ⊎ ((m.phase ≡ returned (ok tt)) × (Dict.get m.dir dst ≡ some (file content))))
        × ((name : String)
            → name ≢ dst
            → name ≢ temp_of dst
            → Dict.get m.dir name ≡ Dict.get before name)
  moments {m} r = let h = Run-Holds r in (ground (arith, h.final), h.others)
