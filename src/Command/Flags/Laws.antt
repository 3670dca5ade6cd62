-- ===== src/Command/Flags/Laws.antt =====
-- FlagSet.Parse against the writing of flags.
use Prim.Native.String.{◌++◌ as append}
use file_pubsub.Base.{
  String, ◌≡◌, refl, arith, true, none, some, List, [], ◌∷◌, nat_eq, string_eq, contains, All,
}
use file_pubsub.Base.Dict
use file_pubsub.Base.Dict.{Dict}
use file_pubsub.Command.Flags.{flag, classify, parse_loop, parse_flags}

-- Each flag as two arguments, with one dash.
unfoldable pub write_flags : Dict String String → List String
write_flags [] = []
write_flags ((name, value) ∷ fs) = append "-" name ∷ value ∷ write_flags fs

-- The flags one after another, where the last one of a name stays.
unfoldable pub put_all : Dict String String → Dict String String → Dict String String
put_all values [] = values
put_all values ((name, value) ∷ fs) = put_all (Dict.put values name value) fs

module _ (defined : List String) where
  -- A defined name that can be written after a dash.
  abbrev pub IsFlag : String → Type 0
  IsFlag name = (contains name defined ≡ true) × (classify (append "-" name) ≡ flag name none)

  parse_loop-write_flags :
      (fs : Dict String String) (values : Dict String String)
      → All (λ (f : String × String). IsFlag f.0) fs
      → parse_loop defined (write_flags fs) none values ≡ some (put_all values fs)
  unfolding parse_loop write_flags put_all
  parse_loop-write_flags [] values h = refl
  parse_loop-write_flags ((name, value) ∷ fs) values ((known, plain), h) =
      ground (arith, parse_loop-write_flags fs (Dict.put values name value) h)

  -- Flags that are written one after another, each with a dash and its value as the next argument,
  -- whatever that is, are read back; of two with one name the last one counts.
  pub parse_flags-write_flags :
      (fs : Dict String String)
      → All (λ (f : String × String). IsFlag f.0) fs
      → parse_flags defined (write_flags fs) ≡ some (put_all [] fs)
  unfolding parse_flags
  parse_flags-write_flags fs h = parse_loop-write_flags fs [] h
