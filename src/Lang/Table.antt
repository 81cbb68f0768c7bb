-- ===== src/Lang/Table.antt =====
-- The table of file types in src/lang.c.
pub mod Rows
use Prim.Native.Char.{code}
use Prim.Native.String.{String}
use the_silver_searcher.Base.{ℕ, List, [], ◌∷◌}

-- `lang_spec_t` of src/lang.h; `extensions` lists the strings before the first NULL.
pub record LangSpec : Type 0 where
  pub name : String
  pub extensions : List String

-- The characters of a string, which are its bytes: the table holds ASCII only.
abbrev pub codes : String → List ℕ
codes String.[] = []
codes (String.◌∷◌ c s) = code c ∷ codes s

abbrev row : String → List String → LangSpec
row name extensions = record { name = name; extensions = extensions }

abbrev pub langs : List LangSpec
langs =
    row "actionscript" ("as" ∷ "mxml" ∷ [])
    ∷ row "ada" ("ada" ∷ "adb" ∷ "ads" ∷ [])
    ∷ row "asciidoc" ("adoc" ∷ "ad" ∷ "asc" ∷ "asciidoc" ∷ [])
    ∷ row "apl" ("apl" ∷ [])
    ∷ row "asm" ("asm" ∷ "s" ∷ [])
    ∷ row "asp" ("asp" ∷ "asa" ∷ "aspx" ∷ "asax" ∷ "ashx" ∷ "ascx" ∷ "asmx" ∷ [])
    ∷ row "aspx" ("asp" ∷ "asa" ∷ "aspx" ∷ "asax" ∷ "ashx" ∷ "ascx" ∷ "asmx" ∷ [])
    ∷ row "batch" ("bat" ∷ "cmd" ∷ [])
    ∷ row "bazel" ("bazel" ∷ [])
    ∷ row "bitbake" ("bb" ∷ "bbappend" ∷ "bbclass" ∷ "inc" ∷ [])
    ∷ row "cc" ("c" ∷ "h" ∷ "xs" ∷ [])
    ∷ row "cfmx" ("cfc" ∷ "cfm" ∷ "cfml" ∷ [])
    ∷ row "chpl" ("chpl" ∷ [])
    ∷ row "clojure" ("clj" ∷ "cljs" ∷ "cljc" ∷ "cljx" ∷ "edn" ∷ [])
    ∷ row "coffee" ("coffee" ∷ "cjsx" ∷ [])
    ∷ row "config" ("config" ∷ [])
    ∷ row "coq" ("coq" ∷ "g" ∷ "v" ∷ [])
    ∷ row "cpp" ("cpp" ∷ "cc" ∷ "C" ∷ "cxx" ∷ "m" ∷ "hpp" ∷ "hh" ∷ "h" ∷ "H" ∷ "hxx" ∷ "tpp" ∷ [])
    ∷ row "crystal" ("cr" ∷ "ecr" ∷ [])
    ∷ row "csharp" ("cs" ∷ [])
    ∷ row "cshtml" ("cshtml" ∷ [])
    ∷ row "css" ("css" ∷ [])
    ∷ row "cython" ("pyx" ∷ "pxd" ∷ "pxi" ∷ [])
    ∷ row "delphi" (
        "pas" ∷ "int" ∷ "dfm" ∷ "nfm" ∷ "dof" ∷ "dpk" ∷ "dpr" ∷ "dproj" ∷ "groupproj" ∷ "bdsgroup"
        ∷ "bdsproj" ∷ [])
    ∷ row "dlang" ("d" ∷ "di" ∷ [])
    ∷ row "dot" ("dot" ∷ "gv" ∷ [])
    ∷ row "dts" ("dts" ∷ "dtsi" ∷ [])
    ∷ row "ebuild" ("ebuild" ∷ "eclass" ∷ [])
    ∷ row "elisp" ("el" ∷ [])
    ∷ row "elixir" ("ex" ∷ "eex" ∷ "exs" ∷ [])
    ∷ row "elm" ("elm" ∷ [])
    ∷ row "erlang" ("erl" ∷ "hrl" ∷ [])
    ∷ row "factor" ("factor" ∷ [])
    ∷ row "fortran"
        ("f" ∷ "F" ∷ "f77" ∷ "f90" ∷ "F90" ∷ "f95" ∷ "f03" ∷ "for" ∷ "ftn" ∷ "fpp" ∷ "FPP" ∷ [])
    ∷ row "fsharp" ("fs" ∷ "fsi" ∷ "fsx" ∷ [])
    ∷ row "gettext" ("po" ∷ "pot" ∷ "mo" ∷ [])
    ∷ row "glsl" ("vert" ∷ "tesc" ∷ "tese" ∷ "geom" ∷ "frag" ∷ "comp" ∷ [])
    ∷ row "go" ("go" ∷ [])
    ∷ row "gradle" ("gradle" ∷ [])
    ∷ row "groovy" ("groovy" ∷ "gtmpl" ∷ "gpp" ∷ "grunit" ∷ "gradle" ∷ [])
    ∷ row "haml" ("haml" ∷ [])
    ∷ row "handlebars" ("hbs" ∷ [])
    ∷ row "haskell" ("hs" ∷ "hsig" ∷ "lhs" ∷ [])
    ∷ row "haxe" ("hx" ∷ [])
    ∷ row "hh" ("h" ∷ [])
    ∷ row "html" ("htm" ∷ "html" ∷ "shtml" ∷ "xhtml" ∷ [])
    ∷ row "idris" ("idr" ∷ "ipkg" ∷ "lidr" ∷ [])
    ∷ row "ini" ("ini" ∷ [])
    ∷ row "ipython" ("ipynb" ∷ [])
    ∷ row "isabelle" ("thy" ∷ [])
    ∷ row "j" ("ijs" ∷ [])
    ∷ row "jade" ("jade" ∷ [])
    ∷ row "java" ("java" ∷ "properties" ∷ [])
    ∷ row "jinja2" ("j2" ∷ [])
    ∷ row "js" ("es6" ∷ "js" ∷ "jsx" ∷ "vue" ∷ [])
    ∷ row "json" ("json" ∷ [])
    ∷ row "jsp" ("jsp" ∷ "jspx" ∷ "jhtm" ∷ "jhtml" ∷ "jspf" ∷ "tag" ∷ "tagf" ∷ [])
    ∷ row "julia" ("jl" ∷ [])
    ∷ row "kotlin" ("kt" ∷ [])
    ∷ row "less" ("less" ∷ [])
    ∷ row "liquid" ("liquid" ∷ [])
    ∷ row "lisp" ("lisp" ∷ "lsp" ∷ [])
    ∷ row "log" ("log" ∷ [])
    ∷ row "lua" ("lua" ∷ [])
    ∷ row "m4" ("m4" ∷ [])
    ∷ row "make" ("Makefiles" ∷ "mk" ∷ "mak" ∷ [])
    ∷ row "mako" ("mako" ∷ [])
    ∷ row "markdown" ("markdown" ∷ "mdown" ∷ "mdwn" ∷ "mkdn" ∷ "mkd" ∷ "md" ∷ [])
    ∷ row "mason" ("mas" ∷ "mhtml" ∷ "mpl" ∷ "mtxt" ∷ [])
    ∷ row "matlab" ("m" ∷ [])
    ∷ row "mathematica" ("m" ∷ "wl" ∷ [])
    ∷ row "md" ("markdown" ∷ "mdown" ∷ "mdwn" ∷ "mkdn" ∷ "mkd" ∷ "md" ∷ [])
    ∷ row "mercury" ("m" ∷ "moo" ∷ [])
    ∷ row "naccess" ("asa" ∷ "rsa" ∷ [])
    ∷ row "nim" ("nim" ∷ [])
    ∷ row "nix" ("nix" ∷ [])
    ∷ row "objc" ("m" ∷ "h" ∷ [])
    ∷ row "objcpp" ("mm" ∷ "h" ∷ [])
    ∷ row "ocaml" ("ml" ∷ "mli" ∷ "mll" ∷ "mly" ∷ [])
    ∷ row "octave" ("m" ∷ [])
    ∷ row "org" ("org" ∷ [])
    ∷ row "parrot" ("pir" ∷ "pasm" ∷ "pmc" ∷ "ops" ∷ "pod" ∷ "pg" ∷ "tg" ∷ [])
    ∷ row "pdb" ("pdb" ∷ [])
    ∷ row "perl" ("pl" ∷ "pm" ∷ "pm6" ∷ "pod" ∷ "t" ∷ [])
    ∷ row "php" ("php" ∷ "phpt" ∷ "php3" ∷ "php4" ∷ "php5" ∷ "phtml" ∷ [])
    ∷ row "pike" ("pike" ∷ "pmod" ∷ [])
    ∷ row "plist" ("plist" ∷ [])
    ∷ row "plone" ("pt" ∷ "cpt" ∷ "metadata" ∷ "cpy" ∷ "py" ∷ "xml" ∷ "zcml" ∷ [])
    ∷ row "powershell" ("ps1" ∷ [])
    ∷ row "proto" ("proto" ∷ [])
    ∷ row "ps1" ("ps1" ∷ [])
    ∷ row "pug" ("pug" ∷ [])
    ∷ row "puppet" ("pp" ∷ [])
    ∷ row "python" ("py" ∷ [])
    ∷ row "qml" ("qml" ∷ [])
    ∷ row "racket" ("rkt" ∷ "ss" ∷ "scm" ∷ [])
    ∷ row "rake" ("Rakefile" ∷ [])
    ∷ row "razor" ("cshtml" ∷ [])
    ∷ row "restructuredtext" ("rst" ∷ [])
    ∷ row "rs" ("rs" ∷ [])
    ∷ row "r" ("r" ∷ "R" ∷ "Rmd" ∷ "Rnw" ∷ "Rtex" ∷ "Rrst" ∷ [])
    ∷ row "rdoc" ("rdoc" ∷ [])
    ∷ row "ruby" ("rb" ∷ "rhtml" ∷ "rjs" ∷ "rxml" ∷ "erb" ∷ "rake" ∷ "spec" ∷ [])
    ∷ row "rust" ("rs" ∷ [])
    ∷ row "salt" ("sls" ∷ [])
    ∷ row "sass" ("sass" ∷ "scss" ∷ [])
    ∷ row "scala" ("scala" ∷ [])
    ∷ row "scheme" ("scm" ∷ "ss" ∷ [])
    ∷ row "shell" ("sh" ∷ "bash" ∷ "csh" ∷ "tcsh" ∷ "ksh" ∷ "zsh" ∷ "fish" ∷ [])
    ∷ row "smalltalk" ("st" ∷ [])
    ∷ row "sml" ("sml" ∷ "fun" ∷ "mlb" ∷ "sig" ∷ [])
    ∷ row "sql" ("sql" ∷ "ctl" ∷ [])
    ∷ row "stata" ("do" ∷ "ado" ∷ [])
    ∷ row "stylus" ("styl" ∷ [])
    ∷ row "swift" ("swift" ∷ [])
    ∷ row "tcl" ("tcl" ∷ "itcl" ∷ "itk" ∷ [])
    ∷ row "terraform" ("tf" ∷ "tfvars" ∷ [])
    ∷ row "tex" ("tex" ∷ "cls" ∷ "sty" ∷ [])
    ∷ row "thrift" ("thrift" ∷ [])
    ∷ row "tla" ("tla" ∷ [])
    ∷ row "tt" ("tt" ∷ "tt2" ∷ "ttml" ∷ [])
    ∷ row "toml" ("toml" ∷ [])
    ∷ row "ts" ("ts" ∷ "tsx" ∷ [])
    ∷ row "twig" ("twig" ∷ [])
    ∷ row "vala" ("vala" ∷ "vapi" ∷ [])
    ∷ row "vb" ("bas" ∷ "cls" ∷ "frm" ∷ "ctl" ∷ "vb" ∷ "resx" ∷ [])
    ∷ row "velocity" ("vm" ∷ "vtl" ∷ "vsl" ∷ [])
    ∷ row "verilog" ("v" ∷ "vh" ∷ "sv" ∷ "svh" ∷ [])
    ∷ row "vhdl" ("vhd" ∷ "vhdl" ∷ [])
    ∷ row "vim" ("vim" ∷ [])
    ∷ row "vue" ("vue" ∷ [])
    ∷ row "wix" ("wxi" ∷ "wxs" ∷ [])
    ∷ row "wsdl" ("wsdl" ∷ [])
    ∷ row "wadl" ("wadl" ∷ [])
    ∷ row "xml" ("xml" ∷ "dtd" ∷ "xsl" ∷ "xslt" ∷ "xsd" ∷ "ent" ∷ "tld" ∷ "plist" ∷ "wsdl" ∷ [])
    ∷ row "yaml" ("yaml" ∷ "yml" ∷ [])
    ∷ row "zeek" ("zeek" ∷ "bro" ∷ "bif" ∷ [])
    ∷ row "zephir" ("zep" ∷ [])
    ∷ []
