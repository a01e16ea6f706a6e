-- ===== src/Categorization/Tables/Overrides.antt =====
-- categorization/logic.py: the verified product overrides.
use Prim.Native.String.{String}
use mathlib.Core.List.{List, [], ◌∷◌}

unfoldable pub verified_category_overrides : List (String × String)
verified_category_overrides =
    ("16 grain", "Groceries")
    ∷ ("4oz choc muf", "Groceries")
    ∷ ("alani nu", "Health & Fitness")
    ∷ ("artisan bgt", "Groceries")
    ∷ ("asiancashw2p", "Groceries")
    ∷ ("avocados", "Groceries")
    ∷ ("b s breasts", "Groceries")
    ∷ ("bausch lomb renu fresh twin pack multi purpose contact lens solution", "Medical Products")
    ∷ ("bick s dills", "Groceries")
    ∷ ("boiron arnicare gel", "Medical Products")
    ∷ ("boursin", "Groceries")
    ∷ ("brioche bun", "Groceries")
    ∷ ("broccoli", "Groceries")
    ∷ ("built cookies n cream peanut butter cup puff protein bars", "Health & Fitness")
    ∷ ("built sour", "Groceries")
    ∷ ("canned chckn", "Groceries")
    ∷ ("carrot 510g", "Groceries")
    ∷ ("cauliflower", "Groceries")
    ∷ ("cdn lt rye", "Groceries")
    ∷ ("cedar valley", "Groceries")
    ∷ ("cerave moisturizing cream", "Indoor Supplies")
    ∷ ("cetaphil sensitive gentle skin cleanser", "Indoor Supplies")
    ∷ ("chk bites", "Groceries")
    ∷ ("chkn pot pie", "Groceries")
    ∷ ("chow mein", "Groceries")
    ∷ ("cinnamon dan", "Groceries")
    ∷ ("connie ckn b", "Groceries")
    ∷ ("crmydillpckl", "Groceries")
    ∷ ("croutons", "Groceries")
    ∷ ("dawn platinum powerwash dish spray with refills", "Indoor Supplies")
    ∷ ("delon 100 cotton premium cosmetic rounds", "Indoor Supplies")
    ∷ ("drive thru", "Indoor Supplies")
    ∷ ("downy april fresh ultra liquid fabric conditioner", "Indoor Supplies")
    ∷ ("dove daily moisture hydration conditioner", "Indoor Supplies")
    ∷ ("dove daily moisture shampoo", "Indoor Supplies")
    ∷ ("feit electric led string lights", "Outdoor Supplies")
    ∷ ("gf ckn flngs", "Groceries")
    ∷ ("gogo squeez", "Groceries")
    ∷ ("green grapes", "Groceries")
    ∷ ("green seedless grapes", "Groceries")
    ∷ ("green kiwi", "Groceries")
    ∷ ("ground ckn", "Groceries")
    ∷ ("haddock", "Groceries")
    ∷ ("harvest brown n serve bread sticks", "Groceries")
    ∷ ("hero mighty patch original invisible patch pack", "Medical Products")
    ∷ ("hv ranch", "Groceries")
    ∷ (
      "imodium quick dissolve diarrhea relief loperamide hydrochloride tablets", "Medical Products",
    )
    ∷ ("kinder ghssl", "Groceries")
    ∷ ("kodiak cakes", "Groceries")
    ∷ ("ks adult gum", "Health & Fitness")
    ∷ ("ks boneless", "Groceries")
    ∷ ("ks chia", "Groceries")
    ∷ ("ks chk tend", "Groceries")
    ∷ ("ks drawstrng", "Clothing")
    ∷ ("ks full zip", "Clothing")
    ∷ ("ks grk ygrt", "Groceries")
    ∷ ("kirkland signature daily facial towelettes", "Indoor Supplies")
    ∷ ("kirkland signature organic chia seeds", "Groceries")
    ∷ ("lac free 2", "Groceries")
    ∷ ("love corn", "Groceries")
    ∷ ("med ch slice", "Groceries")
    ∷ ("michelob", "Groceries")
    ∷ ("mini cukes", "Groceries")
    ∷ ("mini wontons", "Groceries")
    ∷ ("nonni raspbr", "Groceries")
    ∷ ("org mangos", "Groceries")
    ∷ ("oroweat tort", "Groceries")
    ∷ ("philly choc", "Groceries")
    ∷ ("quepasa lime", "Groceries")
    ∷ ("quaker harvest crunch original granola cereal", "Groceries")
    ∷ ("quiche vty", "Groceries")
    ∷ ("remedy", "Medical Products")
    ∷ ("romaine", "Groceries")
    ∷ ("scott original shop towels", "Outdoor Supplies")
    ∷ ("slcd bck bcn", "Groceries")
    ∷ ("sliced mango", "Groceries")
    ∷ ("smkd gouda", "Groceries")
    ∷ ("snowcrest foods organic sliced strawberries", "Groceries")
    ∷ ("spn feta ssg", "Groceries")
    ∷ ("stuff pepper", "Groceries")
    ∷ ("sunions", "Groceries")
    ∷ ("sweet fries", "Groceries")
    ∷ ("sweet pepper", "Groceries")
    ∷ ("sweetkaleduo", "Groceries")
    ∷ ("terra dates", "Groceries")
    ∷ ("tide high efficiency turbo powder laundry detergent with acti life", "Indoor Supplies")
    ∷ ("towel", "Indoor Supplies")
    ∷ ("bath towel", "Indoor Supplies")
    ∷ ("tonkotsu ram", "Groceries")
    ∷ ("tropicana og", "Groceries")
    ∷ ("twigz pickle", "Groceries")
    ∷ ("unsalted btr", "Groceries")
    ∷ ("vaseline dry skin repair body lotion", "Indoor Supplies")
    ∷ ("vaseline dsr", "Medical Products")
    ∷ ("vector jumbo", "Groceries")
    ∷ ("hrvst crunch", "Groceries")
    ∷ ("wahl cordless pro home barber kit 1 each", "Indoor Supplies")
    ∷ ("x lite corporation utility lighters", "Outdoor Supplies")
    ∷ []
