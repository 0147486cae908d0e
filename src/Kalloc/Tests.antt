-- ===== src/Kalloc/Tests.antt =====
-- Runs of the page allocator, and its theorems on them.
use os.Base.{ℕ, ◌+◌, ◌≡◌, refl, [], ◌∷◌, arith}
use os.Base.Result.{ok}
use os.Kalloc.{Kmem, kfree, freerange, freerange_from}
use os.Kalloc.Pages.{IsPage}

abbrev kend : ℕ
kend = 0x80100000

abbrev page : ℕ
page = 0x80200000

abbrev no_pages : Kmem
no_pages = record { freelist = [] }

abbrev one_page : Kmem
one_page = record { freelist = page ∷ [] }

page-IsPage : IsPage kend page
page-IsPage = record { aligned = refl; above = omega arith; physical = omega arith }

kfree-page : kfree kend page no_pages ≡ ok one_page
unfolding kfree
kfree-page = refl

-- The two whole pages of the range are freed, the part of a page before them is not.
two_pages :
    freerange kend (page + 1) (page + 0x3000) no_pages
    ≡ ok (record { freelist = (page + 0x2000) ∷ (page + 0x1000) ∷ [] })
unfolding freerange freerange_from kfree
two_pages = refl
