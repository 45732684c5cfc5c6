-- ===== src/Tests/Titles.antt =====
-- Applications of the theorems on the title of the process.
use jail.Base.{true, none, List, [], ◌∷◌}
use jail.Environ.{ascii}
use jail.Cmdline.{Title, Text, Heap}

-- Ten bytes.
abbrev title : Title
title = record {
  is_named = true;
  area = λ i. 0;
  size = 10;
  max_length = 9;
  prefix = ascii "a: ";
  module_arg = none;
}

-- Two arguments and a string of the environment, one behind the other.
abbrev argument : Text
argument = record { address = 100; bytes = ascii "a" }

abbrev arguments : List Text
arguments = record { address = 102; bytes = ascii "bc" } ∷ []

abbrev variables : List Text
variables = record { address = 105; bytes = ascii "A=1" } ∷ []

abbrev heap : Heap
heap = record { left = 1000; calls = 0 }
