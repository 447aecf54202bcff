-- ===== src/Examples/Strings.antt =====
-- The string primitives at concrete inputs.
use ajulius.Prelude.{◌-◌, ◌^◌, ◌≡◌, refl, [], ◌∷◌, ◌++◌, arith, codes, replicate}
use ajulius.Machine.{word, text, ok}
use ajulius.Machine.Memory.{Writes, text-IsCString}
use ajulius.Strings.{
  julius_strlen, julius_memcpy, julius_memset, julius_memcmp, julius_strcmp, julius_strcpy,
}
use ajulius.Strings.Length.{julius_strlen_lem}
use ajulius.Strings.Copy.{julius_memset-Writes, julius_memcpy-Writes, julius_strcpy-Writes}
use ajulius.Strings.Compare.{Answers, julius_memcmp-Answers, julius_strcmp-Answers}
use ajulius.Strings.Copied.{copy_and_compare, copy_and_compare-Writes}
use ajulius.Examples.Demo.{page, start, page-MappedRange}

-- Tests by evaluation.
strlen_runs : julius_strlen (text "panic" 0) start ≡ ok 5 start
unfolding julius_strlen
strlen_runs = refl

strcmp_runs : julius_strcmp (text "ab" 0) (text "abc" 0) start ≡ ok (2 ^ 32 - 99) start
unfolding julius_strcmp
strcmp_runs = refl

memcmp_runs : julius_memcmp (text "xy" 0) (text "xa" 0) 2 start ≡ ok 24 start
unfolding julius_memcmp
memcmp_runs = refl

julius_strlen_lem_example : julius_strlen (text "panic" 0) start ≡ ok 5 start
julius_strlen_lem_example =
    julius_strlen_lem start (text "panic" 0) (codes "panic") (text-IsCString page "panic" refl)
      (omega arith)

julius_memset-Writes_example :
    Writes start 5000 (replicate 3 74) (word 5000) (julius_memset (word 5000) 74 3 start)
julius_memset-Writes_example =
    julius_memset-Writes start 5000 74 3 (page-MappedRange 5000 3 (omega arith) (omega arith))

julius_memcpy-Writes_example :
    Writes start 5000 (codes "boot") (word 5000) (julius_memcpy (word 5000) (text "boot" 0) 4 start)
julius_memcpy-Writes_example =
    julius_memcpy-Writes start 5000 (text "boot" 0) (codes "boot")
      (refl, (refl, (refl, (refl, tt)))) (page-MappedRange 5000 4 (omega arith) (omega arith)) tt

julius_strcpy-Writes_example :
    Writes start 5000
      (codes "boot" ++ 0 ∷ [])
      (word 5000)
      (julius_strcpy (word 5000) (text "boot" 0) start)
julius_strcpy-Writes_example =
    julius_strcpy-Writes start 5000 (text "boot" 0) (codes "boot") (text-IsCString page "boot" refl)
      (page-MappedRange 5000 5 (omega arith) (omega arith)) tt (omega arith)

julius_memcmp-Answers_example :
    Answers start (codes "xy") (codes "xa") (julius_memcmp (text "xy" 0) (text "xa" 0) 2 start)
julius_memcmp-Answers_example =
    julius_memcmp-Answers start (text "xy" 0) (text "xa" 0) (codes "xy") (codes "xa")
      (refl, (refl, tt)) (refl, (refl, tt)) refl (omega arith) (omega arith)

julius_strcmp-Answers_example :
    Answers start (codes "ab") (codes "abc") (julius_strcmp (text "ab" 0) (text "abc" 0) start)
julius_strcmp-Answers_example =
    julius_strcmp-Answers start (text "ab" 0) (text "abc" 0) (codes "ab") (codes "abc")
      (text-IsCString page "ab" refl) (text-IsCString page "abc" refl) (omega arith) (omega arith)
      (omega arith)

copy_and_compare-Writes_example :
    Writes start 5000 (codes "boot" ++ 0 ∷ []) (4, 0) (copy_and_compare 5000 (text "boot" 0) start)
copy_and_compare-Writes_example =
    copy_and_compare-Writes start 5000 (text "boot" 0) (codes "boot")
      (text-IsCString page "boot" refl) (omega arith)
      (page-MappedRange 5000 5 (omega arith) (omega arith)) tt (omega arith)
