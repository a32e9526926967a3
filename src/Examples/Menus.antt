-- ===== src/Examples/Menus.antt =====
-- The theorems on the menu, the navigation, contents and settings, at small data.
use gtk4_kee.Prelude.{
  Option, zero, suc, ℕ, [], ◌∷◌, ◌≡◌, refl, ◌≢◌, ◌⊎◌, inl, inr, replicate, some, none, arith,
  get_elem?, length, ◌≤◌, ◌+◌, ◌++◌, false, set, ◌-◌,
}
use gtk4_kee.Prelude.Bytes.{Bytes, end, byte, c_string, NoNul}
use gtk4_kee.Prelude.Result.{ok, err, fault, ◌>>=◌}
use gtk4_kee.Menu.Graph.{read, Menu}
use gtk4_kee.Menu.File.{export_menu, load_file}
use gtk4_kee.Menu.RoundTrip.{load-export, load_file-overruns}
use gtk4_kee.Menu.Nav.{Nav, nav_set, nav_back, nav_get}
use gtk4_kee.Menu.Nav.Good.{IsGood, nothing, pushed, nav_set-IsGood}
use gtk4_kee.Menu.Nav.Back.{IsBack, nav_set-back, nav_back-strands}
use gtk4_kee.Menu.Nav.Returns.{nav_back-IsGood}
use gtk4_kee.Content.{Content, blank}
use gtk4_kee.Content.Resolve.{Resolver, content_resolve}
use gtk4_kee.Content.Resolve.Overlap.{content_resolve-overlaps}
use gtk4_kee.Settings.{
  Settings, settings_get, settings_set, reads_back, SettingsType, settings_resource,
  settings_get-set,
}

-- A graph of two nodes, the second of which leads back
abbrev graph : Menu
graph = record {
  nodes =
      record { i = 0; cn = some (b'a' ∷ []); dst = 0 ∷ 1 ∷ [] }
      ∷ record { i = 1; cn = some (b'b' ∷ b'c' ∷ []); dst = 254 ∷ 0 ∷ [] }
      ∷ [];
  now = 0;
}

abbrev empty_table : Menu
empty_table = record { nodes = replicate 3 (record { i = 0; cn = none; dst = [] }); now = 0 }

abbrev stored : Bytes
stored = b'a' ∷ 0 ∷ 0 ∷ 1 ∷ b'b' ∷ b'c' ∷ 0 ∷ 254 ∷ 0 ∷ []

load-export_example :
    load_file 2 2 stored empty_table
    ≡ ok (record empty_table {
      nodes = graph.nodes ++ replicate 1 (record { i = 0; cn = none; dst = [] });
    })
unfolding export_menu
load-export_example =
    load-export 1 graph empty_table (replicate 2 (record { i = 0; cn = none; dst = [] }))
      (replicate 1 (record { i = 0; cn = none; dst = [] })) stored
      (
        record {
          place = refl;
          named = refl;
          text = byte refl end;
          short = omega arith;
          exits = refl;
          bytes = (omega arith, (omega arith, tt));
        },
        (
          record {
            place = refl;
            named = refl;
            text = byte refl (byte refl end);
            short = omega arith;
            exits = refl;
            bytes = (omega arith, (omega arith, tt));
          },
          tt,
        ),
      )
      refl refl refl

-- The first widget is number 5.
abbrev begun : Nav ℕ
begun = record {
  menu = graph;
  widgets = some 5 ∷ none ∷ none ∷ [];
  stack = 0 ∷ 0 ∷ 0 ∷ 0 ∷ 0 ∷ 0 ∷ 0 ∷ 0 ∷ [];
  crsr = 1;
  labels = (b'a' ∷ []) ∷ (b'b' ∷ b'c' ∷ []) ∷ [];
}

abbrev begun-IsGood : IsGood begun
begun-IsGood = record {
  nodes = 0 ∷ [];
  junk = 0 ∷ 0 ∷ 0 ∷ 0 ∷ 0 ∷ 0 ∷ 0 ∷ [];
  built = pushed 5 (nothing {ws = none ∷ none ∷ none ∷ []} refl) refl refl;
  array = refl;
  top = refl;
  size = refl;
  fits = omega arith;
  named = (omega arith, tt);
}

nav_set-IsGood_example :
    ((nav_set 6 1 begun ≡ err 1) × ((w : ℕ) × (get_elem? begun.widgets 1 ≡ some (some w))))
    ⊎ (((length begun.labels ≤ 1) × (nav_set 6 1 begun ≡ fault))
        ⊎ ((nav' : Nav ℕ) × (nav_set 6 1 begun ≡ ok nav')
            × IsGood nav'
            × (nav'.crsr ≡ begun.crsr + 1)
            × (nav'.menu.now ≡ 1)
            × (get_elem? nav'.stack begun.crsr ≡ some 1)))
nav_set-IsGood_example = nav_set-IsGood 6 1 begun begun-IsGood (omega arith)

exit-IsBack : IsBack 3 false 254
exit-IsBack = inr (inl (refl, omega arith))

nav_set-back_example :
    (w : ℕ) × (get_elem? begun.widgets 0 ≡ some (some w))
    × (get_elem? begun.stack (begun.crsr - 1) ≡ some 0)
    × ((do nav ← nav_set 6 1 begun; nav_back 3 false nav)
        ≡ ok (
          some w,
          record begun {
            menu = record begun.menu { now = 0 };
            stack = set begun.stack begun.crsr 1;
          },
        ))
nav_set-back_example =
    nav_set-back 3 false 6 1 begun
      (record { i = 1; cn = some (b'b' ∷ b'c' ∷ []); dst = 254 ∷ 0 ∷ [] }) 254 0 [] begun-IsGood
      refl refl (omega arith) refl refl exit-IsBack

nav_back-strands_example :
    (nav' : Nav ℕ) × (nav_back 3 false (record begun { menu = record graph { now = 1 } })
      ≡ ok (none, nav'))
    × (nav_get nav' ≡ fault)
    × (nav_back 3 false nav' ≡ fault)
unfolding read
nav_back-strands_example =
    nav_back-strands 3 false (record begun { menu = record graph { now = 1 } })
      (record { i = 1; cn = some (b'b' ∷ b'c' ∷ []); dst = 254 ∷ 0 ∷ [] }) refl (omega arith)
      (omega arith) refl refl

-- A resolver that finds one message of five bytes, whose subject is two bytes long
abbrev found : Bytes
found = b'h' ∷ b'e' ∷ b'l' ∷ b'l' ∷ b'o' ∷ []

abbrev resolver : Resolver
resolver = record { resolve = λ key cap. some found; subject_of = λ text. some (b'h' ∷ b'i' ∷ []) }

abbrev letter : Content
letter = record blank { key = replicate 64 3; mem_size = 16; mem = replicate 16 0 }

content_resolve-overlaps_example :
    (content' : Content) × (content_resolve resolver letter ≡ ok content')
    × (c_string content'.mem ≡ some (b'h' ∷ b'e' ∷ b'l' ∷ b'l' ∷ b'h' ∷ b'i' ∷ []))
    × (content'.subject ≡ some 4)
    × (content'.mem_size ≡ 16 - (4 + (2 + 1)))
    × (content'.flags ≡ 15)
content_resolve-overlaps_example =
    content_resolve-overlaps resolver letter (b'h' ∷ b'e' ∷ b'l' ∷ b'l' ∷ []) (b'h' ∷ b'i' ∷ [])
      b'o' refl refl (omega arith) refl (omega arith)
      (byte refl (byte refl (byte refl (byte refl (byte refl end))))) refl
      (byte refl (byte refl end)) (omega arith)

abbrev settings : Settings
settings = record {
  data_dir = 1 ∷ [];
  db = 2 ∷ [];
  resource = 3 ∷ [];
  run = 4 ∷ [];
  key = 5 ∷ [];
  locktime = 6 ∷ [];
  video_device = 7 ∷ [];
}

settings_get-set_example :
    (settings_get (record settings { resource = 9 ∷ [] }) settings_resource
      ≡ reads_back settings_resource (9 ∷ []))
    × ((t' : SettingsType)
        → t' ≢ settings_resource
        → settings_get (record settings { resource = 9 ∷ [] }) t' ≡ settings_get settings t')
unfolding settings_set
settings_get-set_example =
    settings_get-set settings (record settings { resource = 9 ∷ [] }) settings_resource (9 ∷ [])
      refl

long_text : NoNul (replicate 32 120)
long_text = from 32
  where
    from : (n : ℕ) → NoNul (replicate n 120)
    from zero = end
    from (suc n) = byte refl (from n)

load_file-overruns_example : load_file 2 2 (replicate 32 120 ++ 0 ∷ []) empty_table ≡ fault
load_file-overruns_example = load_file-overruns 1 2 (replicate 32 120) [] empty_table long_text refl

-- The second node is on the stack as well, with widget 6.
abbrev gone_on : Nav ℕ
gone_on = record {
  menu = record graph { now = 1 };
  widgets = some 5 ∷ some 6 ∷ none ∷ [];
  stack = 0 ∷ 1 ∷ 0 ∷ 0 ∷ 0 ∷ 0 ∷ 0 ∷ 0 ∷ [];
  crsr = 2;
  labels = (b'a' ∷ []) ∷ (b'b' ∷ b'c' ∷ []) ∷ [];
}

gone_on-IsGood : IsGood gone_on
gone_on-IsGood = record {
  nodes = 1 ∷ 0 ∷ [];
  junk = 0 ∷ 0 ∷ 0 ∷ 0 ∷ 0 ∷ 0 ∷ [];
  built = pushed 6 (pushed 5 (nothing {ws = none ∷ none ∷ none ∷ []} refl) refl refl) refl refl;
  array = refl;
  top = refl;
  size = refl;
  fits = omega arith;
  named = (omega arith, (omega arith, tt));
}

nav_back-IsGood_example :
    (w : Option ℕ) × (nav' : Nav ℕ) × (nav_back 3 false gone_on ≡ ok (w, nav')) × IsGood nav'
unfolding read
nav_back-IsGood_example =
    nav_back-IsGood 3 false gone_on
      (record { i = 1; cn = some (b'b' ∷ b'c' ∷ []); dst = 254 ∷ 0 ∷ [] }) 254 gone_on-IsGood refl
      refl (inr (inr refl))
